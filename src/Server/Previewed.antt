-- ===== src/Server/Previewed.antt =====
-- From `_preview_edit` to `_apply_edit` in src/gpthands/stable_server.py.
use gpthands.Prelude.{String, true, false, none, some, ◌≡◌, refl, ap, sym, ◌∙◌, arith, ok, count}
use mathlib.Core.Path.{subst}
use gpthands.Json.{Fields}
use gpthands.Policy.Defs.{FilePath, approval_required, allow_write}
use gpthands.Risk.{write}
use gpthands.SafeWrite.Defs.{file}
use gpthands.SafeWrite.Stable.{write_parent, stable_atomic_write}
use gpthands.Server.World.{World, Surroundings}
use gpthands.Server.Approve.{is_missing, check_token, require_approval}
use gpthands.Server.Settled.{IsSettled}
use gpthands.Server.Edit.{
  Edit, add_preview, plan_preview, preview_edit, preview_answer, plan_apply, atomic_write,
  apply_planned, apply_edit, apply_answer,
}
use gpthands.Server.Applied.{IsFresh, apply_edit-IsApplied, apply_edit-planned}
use gpthands.Server.Previewing.{
  apply_args, get-approval_token, elem-add_preview, plan_preview-IsPreview, plan_apply-previewed,
  CanWrite, atomic_write-returns,
}

module _ (s : Surroundings) (sha256-count : (t : String) → count (s.runtime.sha256 t) ≡ 64) where
  unasked :
      (hash : String) (v : World)
      → approval_required s.policy write ≡ false
      → require_approval s none write hash v ≡ (ok tt, v)
  unfolding require_approval check_token is_missing
  unasked hash v free = rw free refl

  apply_planned-returns :
      (v : World) (e : Edit)
      → approval_required s.policy write ≡ false
      → (stable_atomic_write s.resolve s.policy s.host e.path e.new_content true v.disk).0 ≡ ok tt
      → (apply_planned s none e v).0 ≡ ok (apply_answer s e)
  unfolding apply_planned atomic_write
  apply_planned-returns v e free written =
      rw (unasked e.preview_id v free) (ground (arith, written))

  abbrev previewed : World → Edit → World
  previewed w e = record w { previews = add_preview e.preview_id w.previews }

  preview_edit-planned :
      (args : Fields) (w : World) (e : Edit)
      → plan_preview s args w ≡ ok e
      → preview_edit s args w ≡ (ok (preview_answer s e), previewed w e)
  unfolding preview_edit
  preview_edit-planned args w e h = ground (arith, h)

  -- An edit that passes the checks of _preview_edit, and whose folder passes those of the write
  -- (_preview_edit does not make them: they resolve the folder by the policy as a path of its own), can
  -- be applied: the preview answers with its id and the hash of the file, and _apply_edit with the same
  -- target and content and these two returns and leaves the new content in the file, if the write lease
  -- is live, the policy asks for no approval of a write, the operating system refuses nothing and nobody
  -- interferes. The path is a resolved one, and nothing bears the name of the temporary file, which
  -- others leave alone. SHA-256 digests have 64 characters.
  pub preview_edit-apply_edit :
      (args : Fields) (w : World) (e : Edit)
      → plan_preview s args w ≡ ok e
      → allow_write s.policy s.now ≡ true
      → approval_required s.policy write ≡ false
      → IsFresh s w.disk
      → IsSettled s.resolve s.policy e.path
      → CanWrite s sha256-count e
      → (folder : FilePath)
      → write_parent s.resolve s.policy e.path e.new_content w.disk ≡ ok folder
      → ((preview_edit s args w).0 ≡ ok (preview_answer s e))
        × ((apply_edit s (apply_args e) (preview_edit s args w).1).0 ≡ ok (apply_answer s e))
        × ((apply_edit s (apply_args e) (preview_edit s args w).1).1.disk e.path
            ≡ some (file e.new_content))
  preview_edit-apply_edit args w e planned live free fresh settled can folder opened =
      let made = preview_edit-planned args w e planned in
      let found = plan_preview-IsPreview s sha256-count args w e planned in
      let ready : plan_apply s (apply_args e) (previewed w e) ≡ ok e =
        plan_apply-previewed s sha256-count w (previewed w e) e found refl
          (elem-add_preview e.preview_id w.previews) live in
      let applied : (apply_edit s (apply_args e) (previewed w e)).0 ≡ ok (apply_answer s e) =
        ap (λ r. r.0) (apply_edit-planned s (apply_args e) (previewed w e) e ready)
        ∙ ap (λ token. (apply_planned s token e (previewed w e)).0) (get-approval_token e)
        ∙ apply_planned-returns (previewed w e) e free
            (atomic_write-returns s sha256-count w e found fresh settled can folder opened) in
      (
        ap (λ r. r.0) made,
        subst (λ v. (apply_edit s (apply_args e) v).0 ≡ ok (apply_answer s e))
            (sym (ap (λ r. r.1) made)) applied,
        subst (λ v. (apply_edit s (apply_args e) v).1.disk e.path ≡ some (file e.new_content))
            (sym (ap (λ r. r.1) made))
            (apply_edit-IsApplied s (apply_args e) (previewed w e) e (apply_answer s e) ready fresh
              settled applied).holds,
      )
