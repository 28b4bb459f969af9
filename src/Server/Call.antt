-- ===== src/Server/Call.antt =====
-- `_call_tool` of src/gpthands/server.py: the tools by their names, and the record of every outcome.
use gpthands.Prelude.{
  String, ◌<>◌, Bool, true, false, if◌then◌else◌, ◌=?◌, take_chars, value_error, ok, err, raise,
}
use gpthands.Prelude.Errors.{Result, Error, error}
use gpthands.Json.{Json, bool, text, arr, obj, nil, cons, Fields, end, field}
use gpthands.Audit.Defs.{LogFile}
use gpthands.Audit.Append.{Entry, record_event}
use gpthands.Audit.Redact.{redact_text}
use gpthands.Server.World.{World, Surroundings, Answer}
use gpthands.Server.Read.{read_file, list_dir, workspace_info}
use gpthands.Server.Search.{grep}
use gpthands.Server.Command.{run_command, git_status, git_diff}
use gpthands.Server.Edit.{preview_edit, apply_edit, write_file}

-- V10GPTHandsServer.VERSION
abbrev pub version : String
version = "1.0.0"

-- {"content": [{"type": "text", "text": ...}], "isError": ...}
unfoldable pub tool_result : String → Bool → Json
tool_result shown is_error = obj (
    field "content"
      (arr (cons (obj (field "type" (text "text") (field "text" (text shown) end))) nil))
      (field "isError" (bool is_error) end))

module _ (s : Surroundings) where
  -- The choice of the tool.
  unfoldable pub dispatch : String → Fields → World → Result Answer × World
  dispatch name args w =
      if name =? "workspace_info"
      then (ok (workspace_info s version), w)
      else if name =? "read_file"
      then (read_file s args w, w)
      else if name =? "list_dir"
      then (list_dir s args w, w)
      else if name =? "grep"
      then (grep s args w, w)
      else if name =? "write_file"
      then write_file s args w
      else if name =? "preview_edit"
      then preview_edit s args w
      else if name =? "apply_edit"
      then apply_edit s args w
      else if name =? "run_command"
      then run_command s args w
      else if name =? "git_status"
      then git_status s w
      else if name =? "git_diff"
      then git_diff s args w
      else (raise value_error ("unknown tool: " <> name), w)

  unfoldable pub entry : Json → String → String → Json → Entry
  entry request_id name outcome detail = record {
    ts = s.timestamp;
    request_id = request_id;
    tool = name;
    outcome = outcome;
    detail = detail;
  }

  -- self.audit.record
  abbrev pub recorded : Json → String → String → Json → LogFile → Result (Unit {0}) × LogFile
  recorded request_id name outcome detail f =
      record_event s.runtime (s.audit_io outcome) (entry request_id name outcome detail) f

  -- `except Exception`: the failure is recorded, and shown to the client.
  unfoldable pub failed_call : Json → String → Error → World → Result Json × World
  failed_call request_id name (error kind message) w =
      let detail = obj (field "error" (text (take_chars 500 (redact_text message))) end) in
      let (answer, log) = recorded request_id name "denied_or_failed" detail w.log in
      elim answer [
        | err e ↦ (err e, record w { log = log })
        | ok done ↦ (ok (tool_result (redact_text message) true), record w { log = log })
      ]

  -- The outcome of the tool, whose record may fail itself.
  unfoldable pub settle : Json → String → Result Answer × World → Result Json × World
  settle request_id name (err e, w) = failed_call request_id name e w
  settle request_id name (ok (shown, detail), w) =
      let (answer, log) = recorded request_id name "allowed" detail w.log in
      elim answer [
        | err e ↦ failed_call request_id name e (record w { log = log })
        | ok done ↦ (ok (tool_result (redact_text shown) false), record w { log = log })
      ]

  -- _call_tool
  unfoldable pub call_tool : Json → String → Fields → World → Result Json × World
  call_tool request_id name args w = settle request_id name (dispatch name args w)
