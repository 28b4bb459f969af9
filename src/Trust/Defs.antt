-- ===== src/Trust/Defs.antt =====
-- `WorkspaceTrustStore` of src/gpthands/trust.py, over the state files.
use gpthands.Prelude.{
  ℕ, String, Bool, true, false, not, ◌&&◌, ◌||◌, Option, none, some, if◌then◌else◌, is_empty,
  take_chars, trust_error, ok, err, ◌>>=◌, ◌>>◌,
}
use gpthands.Prelude.Errors.{Result, require}
use gpthands.State.{is_none, no_fields, StateFile, read_json_object, secure_write_json}
use gpthands.Json.{
  pos, Json, null, int, text, obj, Fields, end, field, get, pop, put, as_fields, equals_int,
  equals_text,
}

-- A workspace as `resolve(strict=True)` gives it, with its name.
pub record Workspace : Type 0 where
  pub is_dir : Bool
  pub canonical : String
  pub dir_name : String

abbrev pub empty_store : Fields
empty_store = field "version" (int (pos 1)) (field "workspaces" (obj end) end)

-- WorkspaceTrustStore._load
unfoldable pub load_store : StateFile → Result Fields
load_store f = do
  stored ← read_json_object f
  require
      (no_fields stored
        || (equals_int (get "version" stored) 1
            && not (is_none (as_fields (get "workspaces" stored)))))
      trust_error "unsupported workspace trust store format"
  ok (if no_fields stored then empty_store else stored)

-- data["workspaces"]
unfoldable pub workspaces_of : Fields → Fields
workspaces_of stored = elim (as_fields (get "workspaces" stored)) [ none ↦ end | some d ↦ d ]

-- record.get("path") of a record that is a dict
unfoldable pub trusts : Option Json → String → Bool
trusts (some (obj trusted)) canonical = equals_text (get "path" trusted) canonical
trusts _ canonical = false

-- Whether a popped value is not None.
unfoldable pub is_value : Option Json → Bool
is_value none = false
is_value (some null) = false
is_value (some v) = true

-- The store's data with one workspace's record changed.
unfoldable pub with_workspaces : Fields → Fields → Json
with_workspaces workspaces stored = obj (put "workspaces" (obj workspaces) stored)

module _ (sha256 : String → String) where
  -- _workspace_key
  unfoldable pub workspace_key : Workspace → Result (String × String)
  workspace_key w = do
    require w.is_dir trust_error "workspace must be a directory"
    ok (sha256 w.canonical, w.canonical)

  unfoldable pub trust_record : Workspace → ℕ → Option String → Fields
  trust_record w now label =
      let given : String = elim label [
        | none ↦ w.dir_name
        | some l ↦ if is_empty l then w.dir_name else l
      ] in
      field "path" (text w.canonical)
        (field "trusted_at" (int (pos now)) (field "label" (text (take_chars 120 given)) end))

  -- The key of a workspace and the data of the store.
  unfoldable pub opened_store : Workspace → StateFile → Result (String × Fields)
  opened_store w f = do key ← workspace_key w; stored ← load_store f; ok (key.0, stored)

  -- WorkspaceTrustStore.trust
  unfoldable pub trust :
      Bool → Workspace → ℕ → Option String → StateFile → Result Fields × StateFile
  trust writes w now label f = elim (opened_store w f) [
    | err e ↦ (err e, f)
    | ok (key, stored) ↦
        let written =
          secure_write_json writes
            (with_workspaces (put key (obj (trust_record w now label)) (workspaces_of stored))
              stored)
            f in
        (written.0 >> ok (trust_record w now label), written.1)
  ]

  -- WorkspaceTrustStore.untrust
  unfoldable pub untrust : Bool → Workspace → StateFile → Result Bool × StateFile
  untrust writes w f = elim (opened_store w f) [
    | err e ↦ (err e, f)
    | ok (key, stored) ↦
        let written =
          secure_write_json writes (with_workspaces (pop key (workspaces_of stored)) stored) f in
        if is_value (get key (workspaces_of stored))
        then (written.0 >> ok true, written.1)
        else (ok false, f)
  ]

  -- WorkspaceTrustStore.is_trusted
  unfoldable pub is_trusted : Workspace → StateFile → Result Bool
  is_trusted w f = do
    key ← workspace_key w
    stored ← load_store f
    ok (trusts (get key.0 (workspaces_of stored)) key.1)
