-- ===== src/Server/Tests.antt =====
-- One edit, previewed and applied.
use gpthands.Prelude.{
  String, true, false, none, some, [], ◌∷◌, ◌++◌, ◌≡◌, refl, ok, err, string_discrete, count,
  is_empty, take_chars, drop_chars, elem, strip, has_prefix, split, join, lower, has_infix,
  replace_char,
}
use mathlib.Core.Path.{subst}
use gpthands.Prelude.Errors.{Error}
use gpthands.Json.{get}
use gpthands.Policy.Defs.{FilePath, live, allow_write, require_write, approval_required}
use gpthands.Policy.Paths.{
  resolve_path, inside, file_name, suffix, suffix_of, path_text, check_protected_path,
  check_secret_path,
}
use gpthands.Time.{before}
use gpthands.Risk.{write, path_parts, last_or_empty}
use gpthands.SafeWrite.Defs.{file, write_all, is_directory}
use gpthands.SafeWrite.Returns.{IsWilling}
use gpthands.SafeWrite.Stable.{
  stable_atomic_write, parent_of, below, relative_text, workspace_relative, write_parent,
}
use gpthands.SafeWrite.Placed.{stable_atomic_write_confined}
use gpthands.Server.World.{World, require_str, str_value, is_file, bounded_text, action_hash}
use gpthands.Server.Settled.{IsSettled}
use gpthands.Server.Edit.{
  Edit, add_preview, sha256, edit_hash, plan_preview, preview_edit, preview_answer, plan_apply,
  apply_edit, apply_answer,
}
use gpthands.Server.Applied.{IsFresh, IsApplied, apply_edit-IsApplied}
use gpthands.Server.Once.{none_yet, and_then, applying, apply_edit-once}
use gpthands.Server.Previewing.{apply_args, CanWrite}
use gpthands.Server.Previewed.{preview_edit-apply_edit}
use gpthands.Server.Samples.{digest, policy, disk, server, world, edit_args}

abbrev edit : Edit
edit = record {
  target = "a.txt";
  path = "work" ∷ "a.txt" ∷ [];
  old = "old";
  new_content = "new";
  base_sha = digest;
  preview_id = digest;
}

abbrev ready : World
ready = record world { previews = digest ∷ [] }

digest-count : (t : String) → count (server.runtime.sha256 t) ≡ 64
digest-count t = refl

previewed : plan_preview server edit_args world ≡ ok edit
unfolding plan_preview require_str str_value get string_discrete is_empty resolve_path strip
    has_prefix path_parts split inside check_protected_path check_secret_path elem lower file_name
    last_or_empty suffix suffix_of path_text join has_infix replace_char is_file bounded_text sha256
    edit_hash action_hash
previewed = refl

planned : plan_apply server (apply_args edit) ready ≡ ok edit
unfolding plan_apply require_write allow_write live before require_str str_value get string_discrete
    is_empty resolve_path strip has_prefix path_parts split inside check_protected_path
    check_secret_path elem lower file_name last_or_empty suffix suffix_of path_text join has_infix
    replace_char is_file bounded_text sha256 edit_hash action_hash
planned = refl

is_live : allow_write server.policy server.now ≡ true
unfolding allow_write live before
is_live = refl

unasked : approval_required server.policy write ≡ false
unfolding approval_required
unasked = refl

unborn : (folder : FilePath) → disk (folder ++ ".gpthands-00" ∷ []) ≡ none
unfolding string_discrete
unborn [] = refl
unborn (a ∷ []) = refl
unborn (a ∷ b ∷ []) = refl
unborn (a ∷ b ∷ c ∷ path) = refl

fresh : IsFresh server disk
fresh = record { unborn = unborn; private = refl }

clean :
    path_parts (relative_text (below ("work" ∷ []) (parent_of ("work" ∷ "a.txt" ∷ []))))
    ≡ below ("work" ∷ []) (parent_of ("work" ∷ "a.txt" ∷ []))
unfolding path_parts relative_text below parent_of split string_discrete is_empty
clean = refl

settled : IsSettled server.resolve policy ("work" ∷ "a.txt" ∷ [])
settled = record { settled = λ strict. refl; clean = clean }

willing : IsWilling server.host "new"
unfolding write_all is_empty take_chars drop_chars
willing = record {
  opens = refl;
  parent = refl;
  creates = refl;
  writes = refl;
  syncs = refl;
  replaces = refl;
  links = refl;
  unlinks = refl;
  syncs_parent = refl;
}

opened : write_parent server.resolve policy ("work" ∷ "a.txt" ∷ []) "new" disk ≡ ok ("work" ∷ [])
unfolding write_parent elem file_name last_or_empty string_discrete workspace_relative parent_of
    inside relative_text below resolve_path is_empty strip has_prefix path_parts split
    check_protected_path check_secret_path lower suffix suffix_of path_text join has_infix
    replace_char is_directory
opened = refl

can_write : CanWrite server digest-count edit
can_write = record { willing = willing; undisturbed = λ name. refl }

preview_edit-apply_edit_example :
    ((preview_edit server edit_args world).0 ≡ ok (preview_answer server edit))
    × ((apply_edit server (apply_args edit) (preview_edit server edit_args world).1).0
        ≡ ok (apply_answer server edit))
    × ((apply_edit server (apply_args edit) (preview_edit server edit_args world).1).1.disk
          ("work" ∷ "a.txt" ∷ [])
        ≡ some (file "new"))
preview_edit-apply_edit_example =
    preview_edit-apply_edit server digest-count edit_args world edit previewed is_live unasked fresh
      settled can_write ("work" ∷ []) opened

preview_made : (preview_edit server edit_args world).1 ≡ ready
unfolding preview_edit add_preview plan_preview require_str str_value get string_discrete is_empty
    resolve_path strip has_prefix path_parts split inside check_protected_path check_secret_path
    elem lower file_name last_or_empty suffix suffix_of path_text join has_infix replace_char
    is_file bounded_text sha256 edit_hash action_hash
preview_made = refl

applied : (apply_edit server (apply_args edit) ready).0 ≡ ok (apply_answer server edit)
applied =
    subst (λ w. (apply_edit server (apply_args edit) w).0 ≡ ok (apply_answer server edit))
      preview_made
      (preview_edit-apply_edit server digest-count edit_args world edit previewed is_live unasked
        fresh settled can_write ("work" ∷ []) opened).1

apply_edit-IsApplied_example :
    IsApplied server (apply_args edit) ready (apply_edit server (apply_args edit) ready).1 edit
apply_edit-IsApplied_example =
    apply_edit-IsApplied server (apply_args edit) ready edit (apply_answer server edit) planned
      fresh settled applied

-- The state after the edit and one more refused call of it.
abbrev later : World
later = (apply_edit server (apply_args edit) (apply_edit server (apply_args edit) ready).1).1

apply_edit-once_example :
    (raised : Error) × (apply_edit server (apply_args edit) later ≡ (err raised, later))
apply_edit-once_example =
    apply_edit-once server (apply_args edit) ready edit planned (apply_answer server edit) applied
      later
      (and_then _ _ _ (none_yet _)
        (applying server (apply_args edit) (apply_edit server (apply_args edit) ready).1))
      server

elsewhere : inside policy.workspace ("etc" ∷ "passwd" ∷ []) ≡ false
unfolding inside string_discrete
elsewhere = refl

stable_atomic_write_confined_example :
    (stable_atomic_write server.resolve policy server.host
        ("work" ∷ "a.txt" ∷ [])
        "new"
        true
        disk).1
      ("etc" ∷ "passwd" ∷ [])
    ≡ disk ("etc" ∷ "passwd" ∷ [])
stable_atomic_write_confined_example =
    stable_atomic_write_confined server.resolve policy server.host ("work" ∷ "a.txt" ∷ []) "new"
      true disk ("etc" ∷ "passwd" ∷ []) elsewhere
