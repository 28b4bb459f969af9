-- ===== src/Server/Planned.antt =====
-- What the checks of `_apply_edit` in src/gpthands/stable_server.py let through.
use gpthands.Prelude.{true, false, Option, none, some, ◌≡◌, arith, ok, Result-cases, inl, inr, elem}
use gpthands.Json.{Fields}
use gpthands.Policy.Defs.{allow_write, require_write}
use gpthands.Policy.Paths.{resolve_path}
use gpthands.SafeWrite.Defs.{Entry, file, directory, symlink}
use gpthands.Server.World.{World, Surroundings, require_str, bounded_text}
use gpthands.Server.Edit.{Edit, sha256, edit_hash, plan_apply}

module _ (s : Surroundings) where
  -- The write lease is live, the arguments name the edit, the path is one the policy opens, its file is
  -- the one whose hash is given, and the preview is one of this very edit and was made.
  pub record IsPlanned (args : Fields) (w : World) (e : Edit) : Type 0 where
    pub live : allow_write s.policy s.now ≡ true
    pub targeted : require_str args "target" false ≡ ok e.target
    pub content_given : require_str args "new_content" true ≡ ok e.new_content
    pub base_given : require_str args "base_sha256" false ≡ ok e.base_sha
    pub preview_given : require_str args "preview_id" false ≡ ok e.preview_id
    pub resolved : resolve_path s.resolve s.policy e.target true ≡ ok e.path
    pub current : w.disk e.path ≡ some (file e.old)
    pub unchanged : sha256 s e.old ≡ e.base_sha
    pub exact : e.preview_id ≡ edit_hash s e.target e.base_sha e.new_content
    pub previewed : elem e.preview_id w.previews ≡ true

  pub bounded_text-file :
      (entry : Option Entry) (limit : _) (found : _)
      → bounded_text s entry limit ≡ ok found
      → entry ≡ some (file found.0)
  unfolding bounded_text
  bounded_text-file none limit found h = absurd (ground arith)
  bounded_text-file (some (file t)) limit found h = ground arith
  bounded_text-file (some directory) limit found h = absurd (ground arith)
  bounded_text-file (some symlink) limit found h = absurd (ground arith)

  pub plan_apply-IsPlanned :
      (args : Fields) (w : World) (e : Edit) → plan_apply s args w ≡ ok e → IsPlanned args w e
  unfolding plan_apply require_write
  plan_apply-IsPlanned args w e h = elim (Result-cases (require_str args "target" false)) [
    | inl (x, f) ↦ absurd (ground arith)
    | inr (target, f) ↦ elim (Result-cases (require_str args "new_content" true)) [
      | inl (x, g) ↦ absurd (ground arith)
      | inr (new_content, g) ↦ elim (Result-cases (require_str args "base_sha256" false)) [
        | inl (x, i) ↦ absurd (ground arith)
        | inr (base_sha, i) ↦ elim (Result-cases (require_str args "preview_id" false)) [
          | inl (x, j) ↦ absurd (ground arith)
          | inr (preview_id, j) ↦
              elim (Result-cases (resolve_path s.resolve s.policy target true)) [
                | inl (x, k) ↦ absurd (ground arith)
                | inr (path, k) ↦
                    elim (Result-cases (bounded_text s (w.disk path) s.policy.max_read_bytes)) [
                      | inl (x, l) ↦ absurd (ground arith)
                      | inr (found, l) ↦ record {
                        live = ground arith;
                        targeted = ground arith;
                        content_given = ground arith;
                        base_given = ground arith;
                        preview_given = ground arith;
                        resolved = ground arith;
                        current = ground (
                          arith,
                          bounded_text-file (w.disk path) s.policy.max_read_bytes found l,
                        );
                        unchanged = ground arith;
                        exact = ground arith;
                        previewed = ground arith;
                      }
                    ]
              ]
        ]
      ]
    ]
  ]
