-- ===== src/Server/Once.antt =====
-- An edit of `_apply_edit` of src/gpthands/stable_server.py is applied once.
use mathlib.Core.Path.{subst}
use gpthands.Prelude.{
  String, true, false, List, [], ◌∷◌, ◌≡◌, refl, ap, sym, ◌∙◌, arith, ok, err, Result-cases, inl,
  inr, elem, ◌=?◌,
}
use gpthands.Prelude.Errors.{Error, Result}
use gpthands.Json.{Fields, get}
use gpthands.Risk.{write}
use gpthands.Server.World.{World, Surroundings, Answer, then_do}
use gpthands.Server.Approve.{require_approval}
use gpthands.Server.Granted.{require_approval-Keeps, then_do_returned}
use gpthands.Server.Edit.{
  Edit, add_preview, remove_preview, plan_preview, preview_edit, plan_apply, atomic_write,
  apply_planned, apply_edit,
}
use gpthands.Server.Planned.{plan_apply-IsPlanned}
use gpthands.Server.Applied.{elem-remove_preview, apply_edit-planned}

remove_preview-keeps :
    (id other : String) (previews : List String)
    → elem id previews ≡ false
    → elem id (remove_preview other previews) ≡ false
unfolding elem remove_preview
remove_preview-keeps id other [] absent = refl
remove_preview-keeps id other (p ∷ previews) absent =
    ground (arith, remove_preview-keeps id other previews)

add_preview-keeps :
    (id other : String) (previews : List String)
    → (id =? other) ≡ false
    → elem id previews ≡ false
    → elem id (add_preview other previews) ≡ false
unfolding add_preview elem
add_preview-keeps id other previews differ absent = ground arith

-- One step of the server in which a preview is not made again: _preview_edit, where it does not come to
-- this preview, _apply_edit, and anything that leaves the previews alone.
pub data Step (id : String) : World → World → Type 0 where
  previewing :
      (s : Surroundings) (args : Fields) (w : World)
      → ((e : Edit) → plan_preview s args w ≡ ok e → (id =? e.preview_id) ≡ false)
      → Step id w (preview_edit s args w).1
  applying : (s : Surroundings) (args : Fields) (w : World) → Step id w (apply_edit s args w).1
  other : (w v : World) → v.previews ≡ w.previews → Step id w v

pub data Steps (id : String) : World → World → Type 0 where
  none_yet : (w : World) → Steps id w w
  and_then : (w v u : World) → Steps id w v → Step id v u → Steps id w u

module _ (id : String) where
  IsAbsent : World → Type 0
  IsAbsent w = elem id w.previews ≡ false

  then_do-keeps {ℓ κ} :
      {A : Type ℓ} {B : Type κ} (first : Result A × World) (rest : A → World → Result B × World)
      → IsAbsent first.1
      → ((a : A) (v : World) → IsAbsent v → IsAbsent (rest a v).1)
      → IsAbsent (then_do first rest).1
  then_do-keeps (err e, w) rest absent keeps = absent
  then_do-keeps (ok a, w) rest absent keeps = keeps a w absent

  apply_planned-keeps :
      (s : Surroundings) (token : _) (e : Edit) (w : World)
      → IsAbsent w
      → IsAbsent (apply_planned s token e w).1
  unfolding IsAbsent apply_planned atomic_write
  apply_planned-keeps s token e w absent =
      let kept = require_approval-Keeps s token write e.preview_id w in
      then_do-keeps (require_approval s token write e.preview_id w) _
        (ap (λ previews. elem id previews) kept.same_previews ∙ absent)
        (λ granted v there.
          then_do-keeps (atomic_write s e.path e.new_content true v) _ there
            (λ written u still. remove_preview-keeps id e.preview_id u.previews still))

  apply_edit-keeps :
      (s : Surroundings) (args : Fields) (w : World) → IsAbsent w → IsAbsent (apply_edit s args w).1
  unfolding apply_edit
  apply_edit-keeps s args w absent = elim (Result-cases (plan_apply s args w)) [
    | inl (x, f) ↦ rw (f, apply_edit) absent
    | inr (e, f) ↦ rw (f, apply_edit) (apply_planned-keeps s (get "approval_token" args) e w absent)
  ]

  preview_edit-keeps :
      (s : Surroundings) (args : Fields) (w : World)
      → ((e : Edit) → plan_preview s args w ≡ ok e → (id =? e.preview_id) ≡ false)
      → IsAbsent w
      → IsAbsent (preview_edit s args w).1
  unfolding preview_edit IsAbsent
  preview_edit-keeps s args w differ absent = elim (Result-cases (plan_preview s args w)) [
    | inl (x, f) ↦ rw (f, preview_edit) absent
    | inr (e, f) ↦
        rw (f, preview_edit) (add_preview-keeps id e.preview_id w.previews (differ e f) absent)
  ]

  Step-keeps : (w v : World) → Step id w v → IsAbsent w → IsAbsent v
  unfolding IsAbsent
  Step-keeps _ _ (previewing s args w differ) absent = preview_edit-keeps s args w differ absent
  Step-keeps _ _ (applying s args w) absent = apply_edit-keeps s args w absent
  Step-keeps _ _ (other w v same) absent = ap (elem id) same ∙ absent

  Steps-keeps : (w v : World) → Steps id w v → IsAbsent w → IsAbsent v
  Steps-keeps _ _ (none_yet w) absent = absent
  Steps-keeps _ _ (and_then w v u before last) absent =
      Step-keeps v u last (Steps-keeps w v before absent)

module _ (s : Surroundings) (args : Fields) (w : World) (e : Edit)
    (planned : plan_apply s args w ≡ ok e) where
  apply_planned-uses :
      (token : _) (answer : Answer)
      → (apply_planned s token e w).0 ≡ ok answer
      → elem e.preview_id (apply_planned s token e w).1.previews ≡ false
  unfolding apply_planned
  apply_planned-uses token answer h =
      let (granted, returned, rest, first) =
        then_do_returned (require_approval s token write e.preview_id w) _ answer h in
      let (done, written, end, second) =
        then_do_returned (atomic_write s e.path e.new_content true _) _ answer rest in
      ap (λ r. elem e.preview_id r.1.previews) (first ∙ second) ∙ elem-remove_preview e.preview_id _

  unused-refused :
      (again : Surroundings) (later : World)
      → elem e.preview_id later.previews ≡ false
      → (raised : Error) × (apply_edit again args later ≡ (err raised, later))
  unfolding apply_edit
  unused-refused again later used = elim (Result-cases (plan_apply again args later)) [
    | inl (raised, f) ↦ (raised, ground arith)
    | inr (found, f) ↦
        let was = plan_apply-IsPlanned s args w e planned in
        let is = plan_apply-IsPlanned again args later found f in
        absurd (ground (arith, was.preview_given, is.preview_given, is.previewed))
  ]

  -- Where _apply_edit has returned for an edit, then in every state that the server comes to from there
  -- without a _preview_edit of this very edit, through any previews of others, any calls of _apply_edit
  -- and anything that leaves the previews alone, the same request is refused and changes nothing.
  pub apply_edit-once :
      (answer : Answer)
      → (apply_edit s args w).0 ≡ ok answer
      → (later : World) → Steps e.preview_id (apply_edit s args w).1 later
      → (again : Surroundings)
      → (raised : Error) × (apply_edit again args later ≡ (err raised, later))
  apply_edit-once answer h later steps again =
      let same = apply_edit-planned s args w e planned in
      let used : elem e.preview_id (apply_edit s args w).1.previews ≡ false =
        subst (λ r. elem e.preview_id r.1.previews ≡ false) (sym same)
          (apply_planned-uses (get "approval_token" args) answer
            (subst (λ r. r.0 ≡ ok answer) same h)) in
      unused-refused again later (unfold IsAbsent in Steps-keeps e.preview_id _ later steps used)
