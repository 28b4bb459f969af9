-- ===== src/Audit/Append.antt =====
-- `_last_nonempty_line_locked`, `_chain_state_locked` and `record` of src/gpthands/audit.py.
use mathlib.Core.List.{reverse}
use gpthands.Prelude.{
  ℕ, ◌+◌, ◌-◌, String, Bool, not, ◌||◌, Option, none, some, List, [], ◌∷◌, leb, ltb, ◌==◌, ◌=?◌,
  if◌then◌else◌, len, count, drop_chars, Result, ok, err, lock_error, os_error, raise, ◌>>=◌,
  is_empty,
}
use gpthands.Json.{ℤ, pos, negsuc, Json, int, text, obj, Fields, end, field, get, put}
use gpthands.Audit.Defs.{
  Runtime, RawLine, raw, LogFile, raw_lines, concat, Written, write_fails, after_write, is_blank,
  genesis_hash, audit_meta, to_int, to_str, event_hash, verify_stream,
}
use gpthands.Audit.Redact.{redact_text}

-- _MAX_TAIL_RECORD_BYTES
abbrev pub max_tail_record_bytes : ℕ
max_tail_record_bytes = 1048576

-- The lines of the last `budget` bytes, the last line first; the earliest one may be cut.
unfoldable pub tail_rows : ℕ → List RawLine → List RawLine
tail_rows budget [] = []
tail_rows budget (l ∷ ls) =
    let more = tail_rows (budget - len (raw l)) ls in
    let cut : RawLine = record l { body = drop_chars (len (raw l) - budget) l.body } in
    if leb (len (raw l)) budget then l ∷ more else if budget == 0 then [] else cut ∷ []

-- [row for row in rows if row.strip()]
unfoldable pub non_blank : List RawLine → List RawLine
non_blank [] = []
non_blank (l ∷ ls) = if is_blank l then non_blank ls else l ∷ non_blank ls

unfoldable pub last_row : Bool → List RawLine → Result (Option String)
last_row oversized [] = ok none
last_row oversized (l ∷ []) =
    if oversized
    then raise os_error "last audit record exceeds maximum supported tail size"
    else ok (some l.body)
last_row oversized (l ∷ m ∷ ls) = ok (some l.body)

-- _last_nonempty_line_locked
unfoldable pub last_nonempty_line : LogFile → Result (Option String)
unfolding last_row
last_nonempty_line f =
    last_row (ltb max_tail_record_bytes (len (concat (raw_lines f))))
      (non_blank (tail_rows max_tail_record_bytes (reverse (raw_lines f))))

abbrev pub next_seq : ℤ → ℤ
next_seq (pos n) = pos (n + 1)
next_seq (negsuc n) = if n == 0 then pos 0 else negsuc (n - 1)

-- The fields of one call of `record`, with the time already formatted.
pub record Entry : Type 0 where
  pub ts : String
  pub request_id : Json
  pub tool : String
  pub outcome : String
  pub detail : Json

abbrev pub version_field : Json
version_field = int (pos 1)

-- What the operating system answers to one call of `record`: whether the log is still open, whether the
-- lock is taken in time, whether the file can be read, and the outcomes of os.write and os.fsync.
pub record LogIo : Type 0 where
  pub is_open : Bool
  pub locked : Bool
  pub readable : Bool
  pub writes : Written
  pub syncs : Bool

-- os.write and os.fsync
unfoldable pub sync_answer : LogIo → Result (Unit {0})
sync_answer io = elim io.writes [
  | write_fails ↦ raise os_error "cannot write the audit log"
  | _ ↦ if io.syncs then ok tt else raise os_error "cannot sync the audit log"
]

-- The dict literal that `record` builds.
unfoldable pub new_event : Entry → ℤ → String → Json
new_event e seq previous = obj (
    field "ts" (text e.ts) (
      field "request_id" e.request_id (
        field "tool" (text e.tool) (
          field "outcome" (text e.outcome) (
            field "detail" e.detail (
              field "audit"
                (obj (
                  field "v" version_field
                    (field "seq" (int seq) (field "prev_hash" (text previous) end))))
                end))))))

-- sanitized["audit"]["hash"] = value
unfoldable pub set_hash : String → Json → Option Json
set_hash value (obj fields) = elim (get "audit" fields) [
  | some (obj audit) ↦ some (obj (put "audit" (obj (put "hash" (text value) audit)) fields))
  | _ ↦ none
]
set_hash value _ = none

module _ (rt : Runtime) where
  open rt use {sha256, loads, dumps, dumps_sorted}

  -- The end of `_chain_state_locked`: a file without a chain, anchored by its exact bytes.
  unfoldable pub legacy_state : LogFile → Result (ℤ × String)
  legacy_state f =
      let verification = verify_stream rt f in
      let bytes = concat (raw_lines f) in
      if not verification.valid || not (verification.chained_records == 0)
      then raise os_error "audit chain verification failed"
      else ok (pos 1, if is_empty bytes then genesis_hash else sha256 bytes)

  unfoldable pub chained_state : Json → Fields → Result (ℤ × String)
  chained_state event audit = elim (to_int rt (get "seq" audit)) [
    | none ↦ raise os_error "last audit record is malformed"
    | some seq ↦
        let supplied = to_str rt (get "hash" audit) in
        if not (count supplied == 64)
          || not (supplied =? event_hash rt event (to_str rt (get "prev_hash" audit)))
        then raise os_error "last audit record hash is invalid"
        else ok (next_seq seq, supplied)
  ]

  unfoldable pub state_after : LogFile → Option String → Result (ℤ × String)
  state_after f none = ok (pos 1, genesis_hash)
  state_after f (some line) = elim (loads line) [
    | none ↦ raise os_error "last audit record is malformed"
    | some event ↦ elim (audit_meta event) [
      | none ↦ legacy_state f
      | some audit ↦ chained_state event audit
    ]
  ]

  -- _chain_state_locked
  unfoldable pub chain_state : LogFile → Result (ℤ × String)
  chain_state f = do line ← last_nonempty_line f; state_after f line

  -- json.loads(redact_text(json.dumps(event)))
  unfoldable pub sanitize : Json → Option Json
  sanitize event = loads (redact_text (dumps event))

  -- The line that `record` writes for an event, without its newline.
  unfoldable pub record_line : Json → String → Result String
  record_line event previous = elim (sanitize event) [
    | none ↦ raise os_error "redacted record is not JSON"
    | some sanitized ↦ elim (set_hash (event_hash rt sanitized previous) sanitized) [
      | none ↦ raise os_error "redacted record has no audit object"
      | some stamped ↦ ok (dumps_sorted stamped)
    ]
  ]

  -- The line that `record` makes for a log.
  unfoldable pub next_line : Entry → LogFile → Result String
  next_line e f = do
    (seq, previous) ← chain_state f
    record_line (new_event e seq previous) previous

  -- AuditLogger.record: its answer, and the file, which an exception may leave changed.
  unfoldable pub record_event : LogIo → Entry → LogFile → Result (Unit {0}) × LogFile
  record_event io e f =
      if not io.is_open
      then (raise os_error "audit log is closed", f)
      else if not io.locked
      then (raise lock_error "timed out acquiring lock", f)
      else if not io.readable
      then (raise os_error "cannot open the audit log", f)
      else elim (next_line e f) [
        | err x ↦ (err x, f)
        | ok line ↦ (sync_answer io, after_write io.writes line f)
      ]
