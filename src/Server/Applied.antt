-- ===== src/Server/Applied.antt =====
-- What an `_apply_edit` of src/gpthands/stable_server.py that returns has done.
use gpthands.Prelude.{
  String, true, false, none, some, List, [], ◌∷◌, ◌++◌, ◌≡◌, refl, ap, sym, ◌∙◌, arith, ok,
  Result-cases, Bool-cases, inl, inr, elem, ◌=?◌, ◌≤◌, len,
}
use mathlib.Core.Path.{subst}
use gpthands.Json.{Fields, get}
use gpthands.Policy.Defs.{FilePath, approval_required}
use gpthands.Risk.{write}
use gpthands.SafeWrite.Defs.{file}
use gpthands.SafeWrite.Stable.{Disk, write_parent, stable_atomic_write}
use gpthands.SafeWrite.Placed.{stable_atomic_write-IsWritten}
use gpthands.Server.World.{World, Surroundings, Answer}
use gpthands.Server.Approve.{require_approval}
use gpthands.Server.Granted.{
  require_approval-Keeps, IsApproved, require_approval-IsApproved, then_do_returned,
}
use gpthands.Server.Settled.{IsSettled, write_parent-settled, file_name-fresh}
use gpthands.Server.Edit.{Edit, remove_preview, plan_apply, atomic_write, apply_planned, apply_edit}
use gpthands.Server.Planned.{IsPlanned, plan_apply-IsPlanned}

pub elem-remove_preview :
    (id : String) (previews : List String) → elem id (remove_preview id previews) ≡ false
unfolding elem remove_preview
elem-remove_preview id [] = refl
elem-remove_preview id (other ∷ previews) = elim (Bool-cases (id =? other)) [
  | inl same ↦ rw same (elem-remove_preview id previews)
  | inr differ ↦ rw differ (ground (arith, differ, elem-remove_preview id previews))
]

module _ (s : Surroundings) where
  -- No file bears the temporary name, and others leave it alone.
  pub record IsFresh (disk : Disk) : Type 0 where
    pub unborn : (folder : FilePath) → disk (folder ++ s.host.temp_name ∷ []) ≡ none
    pub private : s.host.changes s.host.temp_name ≡ none

  -- The edit passed its checks, a person approved it where the policy asks for that, the file holds the
  -- new content, which is within the limit, and its preview is used up.
  pub record IsApplied (args : Fields) (w after : World) (e : Edit) : Type 0 where
    pub planned : IsPlanned s args w e
    pub approved :
        approval_required s.policy write ≡ true
        → IsApproved s (get "approval_token" args) write e.preview_id
    pub fits : len e.new_content ≤ s.policy.max_write_bytes
    pub holds : after.disk e.path ≡ some (file e.new_content)
    pub used : elem e.preview_id after.previews ≡ false

  atomic_write-holds :
      (e : Edit) (v : World) (done : Unit {0})
      → IsFresh v.disk
      → IsSettled s.resolve s.policy e.path
      → v.disk e.path ≡ some (file e.old)
      → (atomic_write s e.path e.new_content true v).0 ≡ ok done
      → (len e.new_content ≤ s.policy.max_write_bytes)
        × ((atomic_write s e.path e.new_content true v).1.disk e.path ≡ some (file e.new_content))
  unfolding atomic_write
  atomic_write-holds e v done fresh settled there h =
      elim (Result-cases (write_parent s.resolve s.policy e.path e.new_content v.disk)) [
        | inl (x, f) ↦ absurd (unfold stable_atomic_write in ground arith)
        | inr (folder, f) ↦
            let written =
              stable_atomic_write-IsWritten s.resolve s.policy s.host e.path e.new_content true
                v.disk
                (file_name-fresh s.resolve s.policy s.host e.path e.new_content e.old v.disk folder
                  f fresh.unborn there)
                fresh.private h in
            let place =
              write_parent-settled s.resolve s.policy e.path e.new_content v.disk written.folder
                settled written.checked in
            (
              written.fits,
              subst
                  (λ path.
                    (stable_atomic_write s.resolve s.policy s.host e.path e.new_content true
                        v.disk).1
                      path
                    ≡ some (file e.new_content))
                  place written.holds,
            )
      ]

  apply_planned-IsApplied :
      (args : Fields) (w : World) (e : Edit) (answer : Answer)
      → IsPlanned s args w e
      → IsFresh w.disk
      → IsSettled s.resolve s.policy e.path
      → (apply_planned s (get "approval_token" args) e w).0 ≡ ok answer
      → IsApplied args w (apply_planned s (get "approval_token" args) e w).1 e
  unfolding apply_planned
  apply_planned-IsApplied args w e answer planned fresh settled h =
      let asked = require_approval s (get "approval_token" args) write e.preview_id w in
      let kept = require_approval-Keeps s (get "approval_token" args) write e.preview_id w in
      let (granted, returned, rest, first) = then_do_returned asked _ answer h in
      let (done, written, end, second) =
        then_do_returned (atomic_write s e.path e.new_content true asked.1) _ answer rest in
      let held =
        atomic_write-holds e asked.1 done (subst IsFresh (sym kept.same_disk) fresh) settled
          (ap (λ d. d e.path) kept.same_disk ∙ planned.current) written in
      subst (λ after. IsApplied args w after.1 e) (sym (first ∙ second))
        (record {
          planned = planned;
          approved = λ needed.
              require_approval-IsApproved s (get "approval_token" args) write e.preview_id w granted
                needed returned;
          fits = held.0;
          holds = held.1;
          used = elem-remove_preview e.preview_id _;
        })

  pub apply_edit-planned :
      (args : Fields) (w : World) (e : Edit)
      → plan_apply s args w ≡ ok e
      → apply_edit s args w ≡ apply_planned s (get "approval_token" args) e w
  unfolding apply_edit
  apply_edit-planned args w e planned = ground (arith, planned)

  -- Where _apply_edit returns, the write lease is live, the arguments are those of an edit that was
  -- previewed and whose file is still the one previewed, a person approved it if the policy asks for
  -- that, the file holds the new content, within the limit, and the preview is used up. The path is a
  -- resolved one, and nothing bears the name of the temporary file, which others leave alone.
  pub apply_edit-IsApplied :
      (args : Fields) (w : World) (e : Edit) (answer : Answer)
      → plan_apply s args w ≡ ok e
      → IsFresh w.disk
      → IsSettled s.resolve s.policy e.path
      → (apply_edit s args w).0 ≡ ok answer
      → IsApplied args w (apply_edit s args w).1 e
  apply_edit-IsApplied args w e answer planned fresh settled h =
      let same = apply_edit-planned args w e planned in
      subst (λ after. IsApplied args w after.1 e) (sym same)
        (apply_planned-IsApplied args w e answer (plan_apply-IsPlanned s args w e planned) fresh
          settled (subst (λ after. after.0 ≡ ok answer) same h))
