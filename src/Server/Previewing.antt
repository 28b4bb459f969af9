-- ===== src/Server/Previewing.antt =====
-- What `_preview_edit` of src/gpthands/stable_server.py finds, and that `_apply_edit` finds the same.
use gpthands.Prelude.{
  String, true, false, Option, none, some, List, [], ◌∷◌, ◌++◌, ◌≡◌, refl, ap, ◌∙◌, arith, ok,
  Result-cases, inl, inr, elem, =?_refl, len, is_empty, string_discrete, count, leb,
}
use gpthands.Json.{Fields, end, field, get, Json, null, bool, int, real, text, arr, obj}
use gpthands.Policy.Defs.{FilePath, allow_write, require_write}
use gpthands.Policy.Paths.{resolve_path, file_name}
use gpthands.SafeWrite.Defs.{
  Entry, file, directory, symlink, Directory, Host, is_directory, after_others,
}
use gpthands.SafeWrite.Stable.{write_parent, stable_atomic_write, entries_of}
use gpthands.SafeWrite.Returns.{IsWilling, posix_atomic_write_returns}
use gpthands.Server.World.{
  World, Surroundings, require_str, str_value, is_file, bounded_text, action_hash,
}
use gpthands.Server.Settled.{IsSettled, write_parent-settled, file_name-fresh}
use gpthands.Server.Edit.{Edit, add_preview, sha256, edit_hash, plan_preview, plan_apply}
use gpthands.Server.Planned.{bounded_text-file}
use gpthands.Server.Applied.{IsFresh}

-- The arguments with which a client applies an edit that it has previewed.
abbrev pub apply_args : Edit → Fields
apply_args e = field "target" (text e.target) (
    field "new_content" (text e.new_content)
      (field "base_sha256" (text e.base_sha) (field "preview_id" (text e.preview_id) end)))

get-target : (e : Edit) → get "target" (apply_args e) ≡ some (text e.target)
unfolding get string_discrete
get-target e = refl

get-new_content : (e : Edit) → get "new_content" (apply_args e) ≡ some (text e.new_content)
unfolding get string_discrete
get-new_content e = refl

get-base_sha256 : (e : Edit) → get "base_sha256" (apply_args e) ≡ some (text e.base_sha)
unfolding get string_discrete
get-base_sha256 e = refl

get-preview_id : (e : Edit) → get "preview_id" (apply_args e) ≡ some (text e.preview_id)
unfolding get string_discrete
get-preview_id e = refl

pub get-approval_token : (e : Edit) → get "approval_token" (apply_args e) ≡ none
unfolding get string_discrete
get-approval_token e = refl

require_str-given :
    (args : Fields) (key value : String)
    → get key args ≡ some (text value)
    → is_empty value ≡ false
    → require_str args key false ≡ ok value
unfolding require_str str_value
require_str-given args key value h k = ground arith

require_str-any :
    (args : Fields) (key value : String)
    → get key args ≡ some (text value)
    → require_str args key true ≡ ok value
unfolding require_str str_value
require_str-any args key value h = ground arith

str_value-nonempty :
    (key t : String) (value : Option Json) → str_value false key value ≡ ok t → is_empty t ≡ false
unfolding str_value
str_value-nonempty key t none h = absurd (ground arith)
str_value-nonempty key t (some (text v)) h = ground arith
str_value-nonempty key t (some null) h = absurd (ground arith)
str_value-nonempty key t (some (bool b)) h = absurd (ground arith)
str_value-nonempty key t (some (int b)) h = absurd (ground arith)
str_value-nonempty key t (some (real b)) h = absurd (ground arith)
str_value-nonempty key t (some (arr b)) h = absurd (ground arith)
str_value-nonempty key t (some (obj b)) h = absurd (ground arith)

require_str-nonempty :
    (args : Fields) (key t : String) → require_str args key false ≡ ok t → is_empty t ≡ false
unfolding require_str
require_str-nonempty args key t h = str_value-nonempty key t _ h

pub elem-add_preview :
    (id : String) (previews : List String) → elem id (add_preview id previews) ≡ true
unfolding add_preview elem
elem-add_preview id previews = ground (arith, =?_refl id)

is_empty-count : (t : String) → count t ≡ 64 → is_empty t ≡ false
unfolding is_empty
is_empty-count String.[] h = absurd (omega (arith, h))
is_empty-count (String.◌∷◌ c t) h = refl

module _ (s : Surroundings) (sha256-count : (t : String) → count (s.runtime.sha256 t) ≡ 64) where
  -- What a preview has found.
  pub record IsPreview (w : World) (e : Edit) : Type 0 where
    pub named : is_empty e.target ≡ false
    pub fits : leb (len e.new_content) s.policy.max_write_bytes ≡ true
    pub resolved : resolve_path s.resolve s.policy e.target true ≡ ok e.path
    pub regular : is_file (w.disk e.path) ≡ true
    pub size : _
    pub read : bounded_text s (w.disk e.path) s.policy.max_read_bytes ≡ ok (e.old, size)
    pub hashed : e.base_sha ≡ sha256 s e.old
    pub identified : e.preview_id ≡ edit_hash s e.target e.base_sha e.new_content

  pub plan_preview-IsPreview :
      (args : Fields) (w : World) (e : Edit) → plan_preview s args w ≡ ok e → IsPreview w e
  unfolding plan_preview
  plan_preview-IsPreview args w e h = elim (Result-cases (require_str args "target" false)) [
    | inl (x, f) ↦ absurd (ground arith)
    | inr (target, f) ↦ elim (Result-cases (require_str args "new_content" true)) [
      | inl (x, g) ↦ absurd (ground arith)
      | inr (new_content, g) ↦ elim (Result-cases (resolve_path s.resolve s.policy target true)) [
        | inl (x, k) ↦ absurd (ground arith)
        | inr (path, k) ↦
            elim (Result-cases (bounded_text s (w.disk path) s.policy.max_read_bytes)) [
              | inl (x, l) ↦ absurd (ground arith)
              | inr (found, l) ↦ record {
                named = ground (arith, require_str-nonempty args "target" target f);
                fits = ground arith;
                resolved = ground arith;
                regular = ground arith;
                size = found.1;
                read = ground arith;
                hashed = ground arith;
                identified = ground arith;
              }
            ]
      ]
    ]
  ]

  base_sha-nonempty : (w : World) (e : Edit) → IsPreview w e → is_empty e.base_sha ≡ false
  unfolding sha256
  base_sha-nonempty w e h = ap is_empty h.hashed ∙ is_empty-count _ (sha256-count e.old)

  preview_id-nonempty : (w : World) (e : Edit) → IsPreview w e → is_empty e.preview_id ≡ false
  unfolding edit_hash action_hash
  preview_id-nonempty w e h = ap is_empty h.identified ∙ is_empty-count _ (sha256-count _)

  pub plan_apply-previewed :
      (w v : World) (e : Edit)
      → IsPreview w e
      → v.disk e.path ≡ w.disk e.path
      → elem e.preview_id v.previews ≡ true
      → allow_write s.policy s.now ≡ true
      → plan_apply s (apply_args e) v ≡ ok e
  unfolding plan_apply require_write
  plan_apply-previewed w v e h same made live = ground (
    arith,
    h.named,
    h.fits,
    h.resolved,
    h.regular,
    h.read,
    h.hashed,
    h.identified,
    require_str-given (apply_args e) "target" e.target (get-target e) h.named,
    require_str-any (apply_args e) "new_content" e.new_content (get-new_content e),
    require_str-given (apply_args e) "base_sha256" e.base_sha (get-base_sha256 e)
        (base_sha-nonempty w e h),
    require_str-given (apply_args e) "preview_id" e.preview_id (get-preview_id e)
        (preview_id-nonempty w e h),
    =?_refl e.base_sha,
    =?_refl e.preview_id,
  )

  -- The operating system refuses nothing of the write of an edit, and nobody interferes.
  pub record CanWrite (e : Edit) : Type 0 where
    pub willing : IsWilling s.host e.new_content
    pub undisturbed : (name : String) → s.host.changes name ≡ none

  after_others-undisturbed :
      (h : Host) (d : Directory) (name : String)
      → h.changes name ≡ none
      → after_others h d name ≡ d name
  unfolding after_others
  after_others-undisturbed h d name quiet = ground (arith, quiet)

  is_directory-file : (entry : Option Entry) → is_file entry ≡ true → is_directory entry ≡ false
  unfolding is_file is_directory
  is_directory-file none h = refl
  is_directory-file (some (file t)) h = refl
  is_directory-file (some directory) h = absurd (ground arith)
  is_directory-file (some symlink) h = refl

  pub atomic_write-returns :
      (w : World) (e : Edit)
      → IsPreview w e
      → IsFresh s w.disk
      → IsSettled s.resolve s.policy e.path
      → CanWrite e
      → (folder : FilePath)
      → write_parent s.resolve s.policy e.path e.new_content w.disk ≡ ok folder
      → (stable_atomic_write s.resolve s.policy s.host e.path e.new_content true w.disk).0 ≡ ok tt
  unfolding stable_atomic_write
  atomic_write-returns w e h fresh settled can folder opened =
      let place : folder ++ file_name e.path ∷ [] ≡ e.path =
        write_parent-settled s.resolve s.policy e.path e.new_content w.disk folder settled opened in
      let apart =
        file_name-fresh s.resolve s.policy s.host e.path e.new_content e.old w.disk folder opened
          fresh.unborn (bounded_text-file s (w.disk e.path) s.policy.max_read_bytes _ h.read) in
      let free : is_directory (entries_of folder w.disk (file_name e.path)) ≡ false =
        unfold entries_of in
        (ap (λ path. is_directory (w.disk path)) place
          ∙ is_directory-file (w.disk e.path) h.regular) in
      let again =
        ap is_directory (
          after_others-undisturbed s.host (entries_of folder w.disk) (file_name e.path)
            (can.undisturbed (file_name e.path)))
        ∙ free in
      ground (
        arith,
        opened,
        posix_atomic_write_returns s.host (file_name e.path) e.new_content
            (entries_of folder w.disk) can.willing apart fresh.private
            (unfold entries_of in fresh.unborn folder) true free again (inl refl),
      )
