-- ===== src/Server/Read.antt =====
-- The reading tools of src/gpthands/server.py, as V10GPTHandsServer in src/gpthands/stable_server.py has
-- them, and `_workspace_info` as V03GPTHandsServer in src/gpthands/limits.py and V04GPTHandsServer in
-- src/gpthands/ux_server.py extend it.
use Prim.Native.Char.{code}
use gpthands.Prelude.{
  String, ◌<>◌, Bool, true, false, ◌&&◌, ◌||◌, Option, none, some, List, [], ◌∷◌, ◌++◌, ltb, length,
  ◌==◌, if◌then◌else◌, lower, join, value_error, policy_error, ok, err, raise, ◌>>=◌, ◌>>◌,
}
use gpthands.Prelude.Errors.{Result, error, require}
use gpthands.Json.{
  ℤ, pos, Json, null, bool, int, real, text, arr, obj, Items, nil, cons, Fields, end, field, get,
  put,
}
use gpthands.Policy.Defs.{FilePath, allow_write, allow_process, allow_network_commands}
use gpthands.Policy.Paths.{resolve_path, path_text}
use gpthands.Risk.{name}
use gpthands.SafeWrite.Defs.{Entry, is_directory}
use gpthands.Trust.Defs.{is_trusted}
use gpthands.Server.World.{
  World, Surroundings, Answer, require_str, is_file, bounded_text, relative,
}

-- a < b on texts
unfoldable pub text_before : String → String → Bool
text_before s String.[] = false
text_before String.[] (String.◌∷◌ d t) = true
text_before (String.◌∷◌ c s) (String.◌∷◌ d t) =
    ltb (code c) (code d) || (code c == code d && text_before s t)

-- sorted(names, key=lower), which keeps the order of equal keys
unfoldable pub insert_name : String → List String → List String
insert_name name [] = name ∷ []
insert_name name (other ∷ names) =
    let rest = insert_name name names in
    if text_before (lower other) (lower name) then other ∷ rest else name ∷ other ∷ names

unfoldable pub sorted_names : List String → List String
sorted_names [] = []
sorted_names (name ∷ names) = insert_name name (sorted_names names)

-- args.get(key, default), which has to be a text
unfoldable pub text_or : String → Option Json → Result String
text_or default none = ok default
text_or default (some (text t)) = ok t
text_or default (some v) = raise value_error "target must be a string"

unfoldable pub texts_of : List String → Items
texts_of [] = nil
texts_of (t ∷ ts) = cons (text t) (texts_of ts)

unfoldable pub lease_json : Option ℤ → Json
lease_json none = null
lease_json (some expiry) = real expiry

module _ (s : Surroundings) where
  -- What a path stands for, through symbolic links.
  unfoldable pub entry_at : World → FilePath → Option Entry
  entry_at w path = elim (s.resolve false path) [ err e ↦ none | ok target ↦ w.disk target ]

  -- _read_file
  unfoldable pub read_file : Fields → World → Result Answer
  read_file args w = do
    target ← require_str args "target" false
    path ← resolve_path s.resolve s.policy target true
    require (is_file (w.disk path)) policy_error "target is not a file"
    (content, count) ← bounded_text s (w.disk path) s.policy.max_read_bytes
    rel ← relative s path
    ok (
      content,
      obj (
          field "target" (text rel)
            (field "bytes" (int (pos count)) (field "risk" (text "READ") end))),
    )

  -- The row of one child: an exception of resolve_path blocks it, one of _relative does not.
  unfoldable pub list_row : World → FilePath → String → Result String
  list_row w path child = do
    rel ← relative s (path ++ child ∷ [])
    elim (resolve_path s.resolve s.policy rel true) [
      | err (error policy_error message) ↦ ok ("[blocked]\t" <> child)
      | err e ↦ err e
      | ok found ↦ ok (
          (if is_directory (entry_at w (path ++ child ∷ [])) then "dir" else "file")
          <> ("\t" <> child))
    ]

  unfoldable pub list_rows : World → FilePath → List String → Result (List String)
  list_rows w path [] = ok []
  list_rows w path (child ∷ children) = do
    row ← list_row w path child
    rows ← list_rows w path children
    ok (row ∷ rows)

  -- _list_dir
  unfoldable pub list_dir : Fields → World → Result Answer
  list_dir args w = do
    target ← text_or "." (get "target" args)
    path ← resolve_path s.resolve s.policy target true
    require (is_directory (w.disk path)) policy_error "target is not a directory"
    rows ← list_rows w path (sorted_names (s.iterdir path))
    rel ← relative s path
    ok (
      join "\n" rows,
      obj (
          field "target" (text rel)
            (field "entries" (int (pos (length rows))) (field "risk" (text "READ") end))),
    )

  unfoldable pub is_trusted_workspace : Result Bool → Bool
  is_trusted_workspace (err e) = false
  is_trusted_workspace (ok answer) = answer

  -- The payload of _workspace_info, with the version and the trust that V04GPTHandsServer sets.
  unfoldable pub workspace_payload : String → Fields
  workspace_payload version =
      put "workspace_trusted"
        (bool (is_trusted_workspace (is_trusted s.runtime.sha256 s.trust_place s.trust_file)))
        (put "server_version" (text version) (
          field "workspace" (text (path_text s.policy.workspace)) (
            field "policy_path" (text (path_text s.policy.policy_path)) (
              field "policy_schema_version" (int (pos s.policy.schema_version)) (
                field "server_version" (text version) (
                  field "allow_write" (bool (allow_write s.policy s.now)) (
                    field "allow_process" (bool (allow_process s.policy s.now)) (
                      field "allow_network_commands" (bool (allow_network_commands s.policy s.now))
                        (field "require_os_sandbox" (bool s.policy.require_os_sandbox) (
                          field "approval_required_from"
                            (text (name s.policy.approval_required_from))
                            (field "allowed_commands" (arr (texts_of s.policy.allowed_commands)) (
                              field "limits"
                                (obj (
                                  field "requests_per_minute"
                                    (int (pos s.policy.max_requests_per_minute))
                                    (field "max_concurrent_actions"
                                      (int (pos s.policy.max_concurrent_actions))
                                      (field "max_queue_seconds"
                                        (int (pos s.policy.max_queue_seconds)) end))))
                                (field "leases"
                                  (obj (
                                    field "write_until" (lease_json s.policy.write_lease_until) (
                                      field "process_until"
                                        (lease_json s.policy.process_lease_until)
                                        (field "network_until"
                                          (lease_json s.policy.network_lease_until) end))))
                                  end)))))))))))))

  -- _workspace_info
  unfoldable pub workspace_info : String → Answer
  workspace_info version = (
    s.dumps_indented (obj (workspace_payload version)),
    obj (field "capabilities_only" (bool true) (field "risk" (text "READ") end)),
  )
