-- ===== src/Audit/Samples.antt =====
-- A hash that keeps 64 characters and one record, for the tests of the audit log.
use Prim.Native.String.count
use gpthands.Prelude.{
  ℕ, zero, suc, true, String, Option, none, some, [], ◌≡◌, refl, ap, ◌∙◌, count, cons_char,
  drop_chars, ◌=?◌, if◌then◌else◌, string_discrete, is_empty, strip,
}
use gpthands.Json.{pos, int, Json, null, text, obj, Fields, end, field, get, pop, put}
use gpthands.Audit.Defs.{
  Runtime, LogFile, raw_lines, is_blank, genesis_hash, next, start, start_chain, run,
  canonical_event, event_hash, written_whole,
}
use gpthands.Audit.Recording.{IsReadBack, IsQuiet}
use gpthands.Audit.Append.{Entry, LogIo, version_field}

unfoldable pub pad : ℕ → String → String
pad zero t = ""
pad (suc n) String.[] = cons_char "0" (pad n "")
pad (suc n) (String.◌∷◌ c t) = cons_char c (pad n t)

pub count-pad : (n : ℕ) (t : String) → count (pad n t) ≡ n
unfolding pad
count-pad zero t = refl
count-pad (suc n) String.[] = count.cons "0" (pad n "") ∙ ap suc (count-pad n "")
count-pad (suc n) (String.◌∷◌ c t) = count.cons c (pad n t) ∙ ap suc (count-pad n t)

abbrev pub entry : Entry
entry = record {
  ts = "now";
  request_id = null;
  tool = "ping";
  outcome = "allowed";
  detail = obj end;
}

abbrev pub event_fields : Json → Fields
event_fields audit = field "ts" (text "now") (
    field "request_id" null (
      field "tool" (text "ping")
        (field "outcome" (text "allowed") (field "detail" (obj end) (field "audit" audit end)))))

abbrev pub audit_fields : Fields
audit_fields =
    field "v" version_field (field "seq" (int (pos 1)) (field "prev_hash" (text genesis_hash) end))

abbrev pub event_digest : String
event_digest = "event00000000000000000000000000000000000000000000000000000000000"

-- The audit object and the event as they are read back from a line with sorted keys.
abbrev pub read_audit : Fields
read_audit = field "hash" (text event_digest) (
    field "prev_hash" (text genesis_hash) (field "seq" (int (pos 1)) (field "v" version_field end)))

abbrev pub read_event : Json → Fields
read_event audit = field "audit" audit (
    field "detail" (obj end) (
      field "outcome" (text "allowed")
        (field "request_id" null (field "tool" (text "ping") (field "ts" (text "now") end)))))

-- A JSON library that knows one event.
unfoldable pub loads : String → Option Json
loads t =
    if t =? "plain"
    then some (obj (event_fields (obj audit_fields)))
    else if t =? "line"
    then some (obj (read_event (obj read_audit)))
    else none

abbrev pub runtime : Runtime
runtime = record {
  sha256 = λ t. pad 64 (drop_chars 65 t);
  loads = loads;
  dumps = λ e. "plain";
  dumps_sorted = λ e. "line";
  dumps_compact = λ e. "event";
  show = λ v. "None";
  parse_int = λ t. none;
  truncate = λ z. z;
}

abbrev pub empty_log : LogFile
empty_log = record { lines = []; rest = "" }

pub empty_run : run runtime start (raw_lines empty_log) ≡ next start
unfolding run raw_lines is_empty
empty_run = refl

pub line_read : IsReadBack runtime start (event_fields (obj audit_fields)) audit_fields
unfolding loads get canonical_event string_discrete is_blank is_empty strip put event_hash
    start_chain pop pad drop_chars
line_read = record {
  event = read_event (obj read_audit);
  event_audit = read_audit;
  reads = refl;
  has_audit = refl;
  version = refl;
  seq = refl;
  prev_hash = refl;
  hash = refl;
  canonical = refl;
  printed = refl;
}

-- An operating system that refuses nothing.
abbrev pub quiet_io : LogIo
quiet_io = record {
  is_open = true;
  locked = true;
  readable = true;
  writes = written_whole;
  syncs = true;
}

pub quiet : IsQuiet quiet_io
quiet = record { is_open = refl; locked = refl; readable = refl; whole = refl; synced = refl }
