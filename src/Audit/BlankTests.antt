-- ===== src/Audit/BlankTests.antt =====
-- A log without a chain and with a blank line, and the record that breaks it.
use package.text.Mathlib.TextEquality.{eq_iff}
use gpthands.Prelude.{
  String, false, Option, none, some, [], ◌∷◌, ◌≡◌, ◌≢◌, refl, arith, ok, ◌=?◌, string_discrete,
  if◌then◌else◌, is_empty, strip,
}
use gpthands.Json.{
  pos, Json, int, text, obj, Fields, end, field, get, pop, put, get_in, as_fields, equals_int,
}
use gpthands.Audit.Defs.{
  Runtime, LogFile, raw_lines, append_line, is_blank, concat, audit_meta, Scan, next, start,
  start_chain, step, check_event, run, previous_mismatch, verify_stream, canonical_event,
  event_hash,
}
use gpthands.Audit.Redact.{redact_text}
use gpthands.Audit.Append.{record_event, new_event, sanitize, version_field}
use gpthands.Audit.Samples.{pad, entry, event_fields, read_event, quiet_io, quiet}
use gpthands.Audit.Tail.{whole}
use gpthands.Audit.Recording.{IsKept, IsReadBack}
use gpthands.Audit.BlankLines.{record_event-blank_legacy}

-- A log of one unchained record and a blank line, over a hash that keeps the first 64 characters.
abbrev blank_log : LogFile
blank_log = record { lines = "old" ∷ "" ∷ []; rest = "" }

blank_digest : String
blank_digest = pad 64 "old\n\n"

legacy_loads : String → Option Json
legacy_loads t =
    if t =? "old"
    then some (obj end)
    else if t =? "plain"
    then some (
        obj (
          event_fields (
            obj (
              field "v" version_field
                (field "seq" (int (pos 1)) (field "prev_hash" (text blank_digest) end))))))
    else if t =? "line"
    then some (
        obj (
          read_event (
            obj (
              field "hash" (text blank_digest) (
                field "prev_hash" (text blank_digest)
                  (field "seq" (int (pos 1)) (field "v" version_field end)))))))
    else none

abbrev runtime : Runtime
runtime = record {
  sha256 = λ t. pad 64 t;
  loads = legacy_loads;
  dumps = λ e. "plain";
  dumps_sorted = λ e. "line";
  dumps_compact = λ e. "event";
  show = λ v. "None";
  parse_int = λ t. none;
  truncate = λ z. z;
}

abbrev audit_fields : Fields
audit_fields =
    field "v" version_field (field "seq" (int (pos 1)) (field "prev_hash" (text blank_digest) end))

abbrev scanned : Scan
scanned = record start { legacy = 1; legacy_bytes = "old\n" }

blank_run : run runtime start (raw_lines blank_log) ≡ next scanned
unfolding run raw_lines is_empty is_blank strip step check_event legacy_loads string_discrete
    audit_meta get_in as_fields get
blank_run = refl

blank_written : is_empty (concat (raw_lines blank_log)) ≡ false
unfolding is_empty concat raw_lines
blank_written = refl

abbrev hashed : Scan
hashed = record scanned { legacy_bytes = concat (raw_lines blank_log) }

entry-IsKept : IsKept runtime entry hashed (event_fields (obj audit_fields)) audit_fields
unfolding sanitize legacy_loads redact_text string_discrete new_event start_chain get equals_int
    blank_digest concat raw_lines is_empty
entry-IsKept = record {
  sanitized = refl;
  has_audit = refl;
  unhashed = refl;
  version = refl;
  seq = refl;
  prev_hash = refl;
}

abbrev read_audit : Fields
read_audit = field "hash" (text blank_digest) (
    field "prev_hash" (text blank_digest) (field "seq" (int (pos 1)) (field "v" version_field end)))

line_read : IsReadBack runtime hashed (event_fields (obj audit_fields)) audit_fields
unfolding legacy_loads get canonical_event string_discrete is_blank is_empty strip put event_hash
    start_chain pop pad blank_digest concat raw_lines
line_read = record {
  event = read_event (obj read_audit);
  event_audit = read_audit;
  reads = refl;
  has_audit = refl;
  version = refl;
  seq = refl;
  prev_hash = refl;
  hash = refl;
  canonical = refl;
  printed = refl;
}

digests_differ : runtime.sha256 (concat (raw_lines blank_log)) ≢ runtime.sha256 "old\n"
unfolding concat raw_lines is_empty pad
digests_differ h = cc ((eq_iff _ _).1 h)

record_event-blank_legacy_example :
    (record_event runtime quiet_io entry blank_log ≡ (ok tt, append_line blank_log "line"))
    × ((verify_stream runtime (append_line blank_log "line")).valid ≡ false)
    × ((verify_stream runtime (append_line blank_log "line")).fault ≡ some previous_mismatch)
record_event-blank_legacy_example =
    record_event-blank_legacy runtime blank_log scanned blank_run refl (omega arith) blank_written
      entry (event_fields (obj audit_fields)) audit_fields entry-IsKept refl
      (whole (unfold concat raw_lines is_empty in omega arith)) line_read quiet_io quiet
      digests_differ
