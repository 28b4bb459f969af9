-- ===== src/Server/Recorded.antt =====
-- `_call_tool` of src/gpthands/server.py records every outcome.
use gpthands.Prelude.{
  String, true, false, ◌≡◌, inl, inr, ◌⊎◌, ap, ◌∙◌, arith, ok, err, Result-cases,
}
use gpthands.Prelude.Errors.{Result, Error, error}
use gpthands.Json.{Json, Fields}
use gpthands.Audit.Defs.{LogFile, after_write}
use gpthands.Audit.Append.{next_line}
use gpthands.Policy.Defs.{FilePath}
use gpthands.Server.World.{World, Surroundings, Answer}
use gpthands.Server.Call.{tool_result, dispatch, entry, recorded, failed_call, settle, call_tool}
use gpthands.Server.Confined.{IsOutside, IsSandboxed, dispatch-Stays}

module _ (s : Surroundings) (request_id : Json) (name : String) (w : World) where
  -- `record` has returned for a record of the call: its line is written, whole or as far as the operating
  -- system wrote it, and synced.
  pub record IsSaved (outcome : String) (detail : Json) (before log : LogFile) : Type 0 where
    pub line : String
    pub made : next_line s.runtime (entry s request_id name outcome detail) before ≡ ok line
    pub synced : (s.audit_io outcome).syncs ≡ true
    pub appended : log ≡ after_write (s.audit_io outcome).writes line before

  -- `record` has raised for a record of the call, and nothing is written, or its line is and is not synced.
  pub IsLost : String → Json → LogFile → LogFile → Type 0
  IsLost outcome detail before log =
      ((e : Error) × ((recorded s request_id name outcome detail before).0 ≡ err e))
      × ((log ≡ before)
          ⊎ ((line : String) × (next_line s.runtime (entry s request_id name outcome detail) before
                ≡ ok line)
              × ((s.audit_io outcome).syncs ≡ false)
              × (log ≡ after_write (s.audit_io outcome).writes line before)))

  -- The log that the record of a failure is added to: the call's, or that of a record of "allowed" lost.
  pub data IsTried : LogFile → Type 0 where
    failed : IsTried w.log
    unsaved : (detail : Json) (half : LogFile) → IsLost "allowed" detail w.log half → IsTried half

  -- What the client is shown and what the log says.
  pub data IsRecorded : Result Json × World → Type 0 where
    allowed :
        (shown : String) (detail : Json) (v : World)
        → IsSaved "allowed" detail w.log v.log
        → IsRecorded (ok (tool_result shown false), v)
    refused :
        (shown : String) (detail : Json) (tried : LogFile) (v : World)
        → IsTried tried
        → IsSaved "denied_or_failed" detail tried v.log
        → IsRecorded (ok (tool_result shown true), v)
    unrecorded :
        (e : Error) (detail : Json) (tried : LogFile) (v : World)
        → IsTried tried
        → IsLost "denied_or_failed" detail tried v.log
        → IsRecorded (err e, v)

  failed_call-disk : (e : Error) (v : World) → (failed_call s request_id name e v).1.disk ≡ v.disk
  unfolding failed_call
  failed_call-disk (error kind message) v = ground arith

  settle-disk : (r : Result Answer × World) → (settle s request_id name r).1.disk ≡ r.1.disk
  unfolding settle
  settle-disk (err e, v) = failed_call-disk e v
  settle-disk (ok (shown, detail), v) =
      elim (Result-cases (recorded s request_id name "allowed" detail v.log).0) [
        | inl (e, fails) ↦ ground (
          arith,
          failed_call-disk e
              (record v { log = (recorded s request_id name "allowed" detail v.log).1 }),
        )
        | inr (done, written) ↦ ground arith
      ]

  -- Where the policy requires the OS sandbox: whatever tool a call names, with whatever arguments, and
  -- whether it answers or raises, it leaves every file of the disk outside the workspace as it was. The
  -- audit log, the replay store and the queue, which are the server's own, are not meant, nor the
  -- temporary home and /private/tmp, which sandbox-exec's profile opens. Children started by the
  -- arguments of bubblewrap or sandbox-exec are assumed to change nothing else, and there is no
  -- AppContainer.
  pub call_tool-confined :
      IsSandboxed s
      → (args : Fields) (path : FilePath) → IsOutside s path
      → (call_tool s request_id name args w).1.disk path ≡ w.disk path
  unfolding call_tool
  call_tool-confined boxed args path out =
      ap (λ d. d path) (settle-disk (dispatch s name args w))
      ∙ (dispatch-Stays s name args w).same_outside boxed path out
