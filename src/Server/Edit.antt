-- ===== src/Server/Edit.antt =====
-- `_preview_edit` and `_apply_edit` of V10GPTHandsServer in src/gpthands/stable_server.py, and
-- `_write_file` of src/gpthands/server.py with the stable `_atomic_write`.
use gpthands.Prelude.{
  String, ◌<>◌, Bool, true, false, ◌&&◌, Option, none, some, List, [], ◌∷◌, leb, len, ◌=?◌, elem,
  if◌then◌else◌, is_empty, value_error, policy_error, ok, err, raise, ◌>>=◌, ◌>>◌,
}
use gpthands.Prelude.Errors.{Result, require}
use gpthands.Json.{Json, bool, text, obj, Fields, end, field, get}
use gpthands.Policy.Defs.{FilePath, require_write}
use gpthands.Policy.Paths.{resolve_path}
use gpthands.Risk.{RiskLevel, write, destructive, name}
use gpthands.SafeWrite.Defs.{is_some}
use gpthands.SafeWrite.Stable.{stable_atomic_write}
use gpthands.Server.World.{
  World, Surroundings, then_do, Answer, require_str, is_file, bounded_text, action_hash,
  content_fingerprint,
}
use gpthands.Server.Approve.{require_approval}

-- set.add
unfoldable pub add_preview : String → List String → List String
add_preview id previews = if elem id previews then previews else id ∷ previews

-- set.remove
unfoldable pub remove_preview : String → List String → List String
remove_preview id [] = []
remove_preview id (other ∷ previews) =
    let rest = remove_preview id previews in if id =? other then rest else other ∷ rest

-- An edit that has passed its checks.
pub record Edit : Type 0 where
  pub target : String
  pub path : FilePath
  pub old : String
  pub new_content : String
  pub base_sha : String
  pub preview_id : String

-- A new or replaced file that has passed its checks.
pub record Filing : Type 0 where
  pub target : String
  pub path : FilePath
  pub content : String
  pub overwrite : Bool
  pub risk : RiskLevel
  pub action : String

unfoldable pub bool_or_false : String → Option Json → Result Bool
bool_or_false key none = ok false
bool_or_false key (some (bool b)) = ok b
bool_or_false key (some v) = raise value_error (key <> " must be boolean")

module _ (s : Surroundings) where
  unfoldable pub sha256 : String → String
  sha256 value = s.runtime.sha256 value

  unfoldable pub edit_hash : String → String → String → String
  edit_hash target base_sha new_content = action_hash s "apply_edit" (
      field "target" (text target)
        (field "base_sha256" (text base_sha) (field "new_sha256" (text (sha256 new_content)) end)))

  -- The checks of _preview_edit.
  unfoldable pub plan_preview : Fields → World → Result Edit
  plan_preview args w = do
    target ← require_str args "target" false
    new_content ← require_str args "new_content" true
    require (leb (len new_content) s.policy.max_write_bytes) policy_error
        "new_content exceeds max_write_bytes"
    path ← resolve_path s.resolve s.policy target true
    require (is_file (w.disk path)) policy_error "target is not a file"
    (old, count) ← bounded_text s (w.disk path) s.policy.max_read_bytes
    ok (record {
      target = target;
      path = path;
      old = old;
      new_content = new_content;
      base_sha = sha256 old;
      preview_id = edit_hash target (sha256 old) new_content;
    })

  unfoldable pub preview_answer : Edit → Answer
  preview_answer e =
      let diff = s.unified_diff e.target e.old e.new_content in
      (
        s.dumps_indented (
            obj (
              field "preview_id" (text e.preview_id) (
                field "base_sha256" (text e.base_sha)
                  (field "diff" (text (if is_empty diff then "[no changes]" else diff)) end)))),
        obj (
            field "target" (text e.target)
              (field "risk" (text "READ") (field "preview_id" (text e.preview_id) end))),
      )

  -- _preview_edit
  unfoldable pub preview_edit : Fields → World → Result Answer × World
  preview_edit args w = elim (plan_preview args w) [
    | err e ↦ (err e, w)
    | ok edit ↦
        (ok (preview_answer edit), record w { previews = add_preview edit.preview_id w.previews })
  ]

  -- The checks of _apply_edit, up to the approval.
  unfoldable pub plan_apply : Fields → World → Result Edit
  plan_apply args w = do
    require_write s.policy s.now
    target ← require_str args "target" false
    new_content ← require_str args "new_content" true
    require (leb (len new_content) s.policy.max_write_bytes) policy_error
        "new_content exceeds max_write_bytes"
    base_sha ← require_str args "base_sha256" false
    preview_id ← require_str args "preview_id" false
    path ← resolve_path s.resolve s.policy target true
    require (is_file (w.disk path)) policy_error "target is not a file"
    (current, count) ← bounded_text s (w.disk path) s.policy.max_read_bytes
    require (sha256 current =? base_sha) policy_error
        "file changed since preview; generate a new preview"
    require (preview_id =? edit_hash target base_sha new_content && elem preview_id w.previews)
        policy_error "valid one-time preview_id required before apply_edit"
    ok (record {
      target = target;
      path = path;
      old = current;
      new_content = new_content;
      base_sha = base_sha;
      preview_id = preview_id;
    })

  unfoldable pub apply_answer : Edit → Answer
  apply_answer e = (
    "applied",
    obj (
        field "target" (text e.target) (
          field "base_sha256" (text e.base_sha)
            (field "new_sha256" (text (sha256 e.new_content)) (field "risk" (text "WRITE") end)))),
  )

  -- _atomic_write
  unfoldable pub atomic_write : FilePath → String → Bool → World → Result (Unit {0}) × World
  atomic_write path content overwrite w =
      let written = stable_atomic_write s.resolve s.policy s.host path content overwrite w.disk in
      (written.0, record w { disk = written.1 })

  -- From the approval to the end of _apply_edit.
  unfoldable pub apply_planned : Option Json → Edit → World → Result Answer × World
  apply_planned token e w = then_do (require_approval s token write e.preview_id w) (λ granted v.
      then_do (atomic_write e.path e.new_content true v) (λ written u.
        (ok (apply_answer e), record u { previews = remove_preview e.preview_id u.previews })))

  -- _apply_edit
  unfoldable pub apply_edit : Fields → World → Result Answer × World
  apply_edit args w = elim (plan_apply args w) [
    | err e ↦ (err e, w)
    | ok edit ↦ apply_planned (get "approval_token" args) edit w
  ]

  -- The checks of _write_file, up to the approval.
  unfoldable pub plan_write : Fields → World → Result Filing
  plan_write args w = do
    require_write s.policy s.now
    target ← require_str args "target" false
    content ← require_str args "content" true
    overwrite ← bool_or_false "overwrite" (get "overwrite" args)
    path ← resolve_path s.resolve s.policy target false
    ok (record {
      target = target;
      path = path;
      content = content;
      overwrite = overwrite;
      risk = if is_some (w.disk path) && overwrite then destructive else write;
      action = action_hash s "write_file" (
          field "target" (text target) (
            field "overwrite" (bool overwrite)
              (field "content" (content_fingerprint s content) end)));
    })

  unfoldable pub write_answer : Filing → Answer
  write_answer f = (
    "written",
    obj (
        field "target" (text f.target) (
          field "overwrite" (bool f.overwrite) (
            field "content" (content_fingerprint s f.content)
              (field "risk" (text (name f.risk)) end)))),
  )

  -- _write_file
  unfoldable pub write_file : Fields → World → Result Answer × World
  write_file args w = elim (plan_write args w) [
    | err e ↦ (err e, w)
    | ok f ↦
        then_do (require_approval s (get "approval_token" args) f.risk f.action w) (λ granted v.
          then_do (atomic_write f.path f.content f.overwrite v)
            (λ written u. (ok (write_answer f), u)))
  ]
