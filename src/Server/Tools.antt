-- ===== src/Server/Tools.antt =====
-- `_tool` and `TOOLS` of src/gpthands/server.py, and `_modern_tools` of src/gpthands/stable_server.py.
use gpthands.Prelude.{String, Bool, true, false, not, none, some, List, [], ◌∷◌, map, if◌then◌else◌}
use gpthands.Json.{
  pos, Json, bool, int, text, arr, obj, Items, nil, cons, Fields, end, field, get, put, as_fields,
  equals_text,
}

pub record Tool : Type 0 where
  pub tool_name : String
  pub read_only : Bool
  pub description : Fields

-- _tool
abbrev pub tool : String → String → Fields → Items → Bool → Tool
tool name description properties required read_only = record {
  tool_name = name;
  read_only = read_only;
  description = field "name" (text name) (
      field "description" (text description) (
        field "inputSchema"
          (obj (
            field "type" (text "object") (
              field "properties" (obj properties)
                (field "required" (arr required) (field "additionalProperties" (bool false) end)))))
          (field "annotations"
            (obj (
              field "readOnlyHint" (bool read_only) (
                field "destructiveHint" (bool (not read_only))
                  (field "openWorldHint" (bool false) end))))
            end)));
}

abbrev pub workspace_info_tool : Tool
workspace_info_tool =
    tool "workspace_info"
      "Return workspace, policy authority path, active leases, and sandbox settings." end nil true

abbrev pub read_file_tool : Tool
read_file_tool =
    tool "read_file" "Read a UTF-8 text file inside the workspace with secret redaction."
      (field "target" (obj (field "type" (text "string") end)) end) (cons (text "target") nil) true

abbrev pub list_dir_tool : Tool
list_dir_tool =
    tool "list_dir" "List one directory inside the workspace."
      (field "target" (obj (field "type" (text "string") (field "default" (text ".") end))) end) nil
      true

abbrev pub grep_tool : Tool
grep_tool =
    tool "grep" "Search bounded UTF-8 text below a workspace path."
      (field "pattern" (obj (field "type" (text "string") end)) (
        field "target" (obj (field "type" (text "string") (field "default" (text ".") end))) (
          field "regex" (obj (field "type" (text "boolean") (field "default" (bool false) end)))
            end)))
      (cons (text "pattern") nil) true

abbrev pub write_file_tool : Tool
write_file_tool =
    tool "write_file"
      "Create or replace one UTF-8 file. Write lease required; overwrite may require human approval."
      (field "target" (obj (field "type" (text "string") end)) (
        field "content" (obj (field "type" (text "string") end)) (
          field "overwrite" (obj (field "type" (text "boolean") (field "default" (bool false) end)))
            (field "approval_token" (obj (field "type" (text "string") end)) end))))
      (cons (text "target") (cons (text "content") nil)) false

abbrev pub preview_edit_tool : Tool
preview_edit_tool =
    tool "preview_edit"
      "Preview a full-file edit and receive a one-time preview_id plus base SHA-256."
      (field "target" (obj (field "type" (text "string") end))
        (field "new_content" (obj (field "type" (text "string") end)) end))
      (cons (text "target") (cons (text "new_content") nil)) true

abbrev pub apply_edit_tool : Tool
apply_edit_tool =
    tool "apply_edit"
      "Apply a previously previewed edit atomically. Write lease and matching preview_id are required."
      (field "target" (obj (field "type" (text "string") end)) (
        field "new_content" (obj (field "type" (text "string") end)) (
          field "base_sha256" (obj (field "type" (text "string") end)) (
            field "preview_id" (obj (field "type" (text "string") end))
              (field "approval_token" (obj (field "type" (text "string") end)) end)))))
      (cons (text "target")
        (cons (text "new_content") (cons (text "base_sha256") (cons (text "preview_id") nil))))
      false

abbrev pub run_command_tool : Tool
run_command_tool =
    tool "run_command"
      "Run an allowlisted argv command inside the OS sandbox. Process/network leases and approvals are enforced."
      (field "argv"
        (obj (
          field "type" (text "array") (
            field "items" (obj (field "type" (text "string") end))
              (field "minItems" (int (pos 1)) end))))
        (field "cwd" (obj (field "type" (text "string") (field "default" (text ".") end)))
          (field "approval_token" (obj (field "type" (text "string") end)) end)))
      (cons (text "argv") nil) false

abbrev pub git_status_tool : Tool
git_status_tool =
    tool "git_status" "Run curated read-only git status inside the OS sandbox." end nil true

abbrev pub git_diff_tool : Tool
git_diff_tool =
    tool "git_diff" "Run curated read-only git diff inside the OS sandbox."
      (field "staged" (obj (field "type" (text "boolean") (field "default" (bool false) end)))
        (field "path" (obj (field "type" (text "string") end)) end))
      nil true

-- TOOLS
unfoldable pub tools : List Tool
tools =
    workspace_info_tool ∷ read_file_tool ∷ list_dir_tool ∷ grep_tool ∷ write_file_tool
    ∷ preview_edit_tool ∷ apply_edit_tool ∷ run_command_tool ∷ git_status_tool ∷ git_diff_tool ∷ []

unfoldable pub tool_items : List Tool → Items
tool_items [] = nil
tool_items (t ∷ ts) = cons (obj t.description) (tool_items ts)

abbrev pub json_schema : String
json_schema = "https://json-schema.org/draft/2020-12/schema"

-- d.setdefault(key, value)
unfoldable pub set_default : String → Json → Fields → Fields
set_default key value fields = elim (get key fields) [
  | none ↦ put key value fields
  | some v ↦ fields
]

unfoldable pub with_schema : Fields → Fields
with_schema fields = elim (as_fields (get "inputSchema" fields)) [
  | none ↦ fields
  | some schema ↦ put "inputSchema" (obj (set_default "$schema" (text json_schema) schema)) fields
]

unfoldable pub modern_tool : Tool → Tool
modern_tool t = record t {
  description =
      if equals_text (get "name" (with_schema t.description)) "grep"
      then put "description"
          (text
            "Literal bounded UTF-8 search below a workspace path. Regex mode is disabled in v1 to avoid regex-complexity denial of service.")
          (with_schema t.description)
      else with_schema t.description;
}

-- _modern_tools
unfoldable pub modern_tools : List Tool
modern_tools = map modern_tool tools
