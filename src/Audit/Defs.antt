-- ===== src/Audit/Defs.antt =====
-- The log file, its records and `_verify_stream` of src/gpthands/audit.py.
use gpthands.Prelude.{
  ℕ, ◌+◌, String, ◌<>◌, Bool, true, false, not, Option, none, some, List, [], ◌∷◌, ◌++◌, map, ◌==◌,
  ◌=?◌, if◌then◌else◌, is_empty, strip, take_chars,
}
use gpthands.Json.{
  ℤ, pos, Json, bool, int, real, text, obj, Fields, get, pop, put, get_in, as_fields, int_is,
  equals_int,
}

-- Python's hashlib, json, `str` and `int` on values of the program. `loads` is none where it
-- raises, and `parse_int` where `int(text)` does. `show` is `str` on what is no text.
pub record Runtime : Type 0 where
  pub sha256 : String → String
  pub loads : String → Option Json
  pub dumps : Json → String
  pub dumps_sorted : Json → String
  pub dumps_compact : Json → String
  pub show : Option Json → String
  pub parse_int : String → Option ℤ
  pub truncate : ℤ → ℤ

-- A line of the file: its text, and the newline unless it is an unfinished last line.
pub record RawLine : Type 0 where
  pub body : String
  pub newline : String

abbrev pub raw : RawLine → String
raw l = l.body <> l.newline

-- A file as its finished lines and what stands after the last newline.
pub record LogFile : Type 0 where
  pub lines : List String
  pub rest : String

abbrev pub finished : String → RawLine
finished l = record { body = l; newline = "\n" }

-- `for raw_line in handle`
unfoldable pub raw_lines : LogFile → List RawLine
raw_lines f =
    map finished f.lines
    ++ (if is_empty f.rest then [] else record { body = f.rest; newline = "" } ∷ [])

-- `handle.read()`
unfoldable pub concat : List RawLine → String
concat [] = ""
concat (l ∷ ls) = raw l <> concat ls

-- What `os.write` answers: that all is written, that only the first characters are, or an exception.
pub data Written : Type 0 where
  written_whole write_fails : Written
  written_short : ℕ → Written

-- `os.write` of a whole line on a file opened with O_APPEND
unfoldable pub append_line : LogFile → String → LogFile
append_line f line = record { lines = f.lines ++ (f.rest <> line) ∷ []; rest = "" }

-- The file after `os.write`, whose count of bytes the program does not look at.
unfoldable pub after_write : Written → String → LogFile → LogFile
after_write written_whole line f = append_line f line
after_write (written_short n) line f = record f { rest = f.rest <> take_chars n line }
after_write write_fails line f = f

unfoldable pub is_blank : RawLine → Bool
is_blank l = is_empty (strip l.body)

-- _GENESIS_HASH
abbrev pub genesis_hash : String
genesis_hash = "0000000000000000000000000000000000000000000000000000000000000000"

-- The messages of a failed verification.
pub data Fault : Type 0 where
  invalid_jsonl legacy_after_chain bad_metadata previous_mismatch hash_mismatch : Fault
  sequence_mismatch : ℕ → ℤ → Fault

pub record AuditVerification : Type 0 where
  pub valid : Bool
  pub chained_records : ℕ
  pub legacy_records : ℕ
  pub anchored : Bool
  pub last_hash : Option String
  pub fault : Option Fault

-- The local variables of `_verify_stream`.
pub record Scan : Type 0 where
  pub previous : String
  pub expected_seq : ℕ
  pub chained : ℕ
  pub legacy : ℕ
  pub legacy_bytes : String
  pub chain_started : Bool

pub data Step : Type 0 where
  next : Scan → Step
  stop : AuditVerification → Step

-- Go on with the loop unless it has returned.
abbrev pub on_next : Step → (Scan → Step) → Step
on_next (next s) k = k s
on_next (stop v) k = stop v

abbrev pub start : Scan
start = record {
  previous = genesis_hash;
  expected_seq = 1;
  chained = 0;
  legacy = 0;
  legacy_bytes = "";
  chain_started = false;
}

abbrev pub last_if_chained : Scan → Option String
last_if_chained s = if s.chained == 0 then none else some s.previous

abbrev pub failed : Scan → Bool → Option String → Fault → Step
failed s anchored last fault = stop (record {
  valid = false;
  chained_records = s.chained;
  legacy_records = s.legacy;
  anchored = anchored;
  last_hash = last;
  fault = some fault;
})

-- isinstance(audit, dict) and audit.get("v") == _AUDIT_CHAIN_VERSION
unfoldable pub audit_meta : Json → Option Fields
audit_meta event = elim (as_fields (get_in "audit" event)) [
  | none ↦ none
  | some audit ↦ if equals_int (get "v" audit) 1 then some audit else none
]

module _ (rt : Runtime) where
  open rt use {sha256, loads, dumps_compact, show, parse_int, truncate}

  -- int(value)
  unfoldable pub to_int : Option Json → Option ℤ
  to_int (some (int z)) = some z
  to_int (some (bool true)) = some (pos 1)
  to_int (some (bool false)) = some (pos 0)
  to_int (some (real z)) = some (truncate z)
  to_int (some (text t)) = parse_int t
  to_int _ = none

  -- str(value)
  unfoldable pub to_str : Option Json → String
  to_str (some (text t)) = t
  to_str v = show v

  -- _canonical_event: the dump of the event without the hash in its audit object
  unfoldable pub canonical_event : Json → String
  canonical_event (obj fields) = elim (get "audit" fields) [
    | some (obj audit) ↦ dumps_compact (obj (put "audit" (obj (pop "hash" audit)) fields))
    | _ ↦ dumps_compact (obj fields)
  ]
  canonical_event event = dumps_compact event

  -- _event_hash
  unfoldable pub event_hash : Json → String → String
  event_hash event prev_hash = sha256 (prev_hash <> ("\n" <> canonical_event event))

  -- The first record of the chain is anchored in the legacy lines.
  unfoldable pub start_chain : Scan → Scan
  start_chain s = if s.chain_started then s else record s {
    chain_started = true;
    previous = if s.legacy == 0 then genesis_hash else sha256 s.legacy_bytes;
  }

  unfoldable pub check_link : Scan → Json → Fields → Step
  check_link s event audit = elim (to_int (get "seq" audit)) [
    | none ↦ failed s true (some s.previous) bad_metadata
    | some seq ↦
        if not (int_is seq s.expected_seq)
        then failed s true (some s.previous) (sequence_mismatch s.expected_seq seq)
        else if not (to_str (get "prev_hash" audit) =? s.previous)
        then failed s true (some s.previous) previous_mismatch
        else if not (to_str (get "hash" audit) =? event_hash event s.previous)
        then failed s true (some s.previous) hash_mismatch
        else next (record s {
          previous = to_str (get "hash" audit);
          expected_seq = s.expected_seq + 1;
          chained = s.chained + 1;
        })
  ]

  unfoldable pub check_event : Scan → RawLine → Json → Step
  check_event s l event = elim (audit_meta event) [
    | none ↦
        if s.chain_started
        then failed s true (some s.previous) legacy_after_chain
        else next (record s { legacy = s.legacy + 1; legacy_bytes = s.legacy_bytes <> raw l })
    | some audit ↦ check_link (start_chain s) event audit
  ]

  -- One round of the loop of `_verify_stream`.
  unfoldable pub step : Scan → RawLine → Step
  step s l = if is_blank l then next s else elim (loads l.body) [
    | none ↦ failed s s.chain_started (last_if_chained s) invalid_jsonl
    | some event ↦ check_event s l event
  ]

  unfoldable pub run : Scan → List RawLine → Step
  run s [] = next s
  run s (l ∷ ls) = on_next (step s l) (λ t. run t ls)

  unfoldable pub finish : Step → AuditVerification
  finish (stop v) = v
  finish (next s) = record {
    valid = true;
    chained_records = s.chained;
    legacy_records = s.legacy;
    anchored = s.chain_started;
    last_hash = last_if_chained s;
    fault = none;
  }

  unfoldable pub verify_stream : LogFile → AuditVerification
  verify_stream f = finish (run start (raw_lines f))
