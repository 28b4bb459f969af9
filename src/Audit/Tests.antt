-- ===== src/Audit/Tests.antt =====
-- The audit log at concrete inputs, over a runtime whose hash keeps 64 characters.
use gpthands.Prelude.{
  true, none, some, [], ◌∷◌, ◌≡◌, refl, arith, inr, ok, drop_chars, string_discrete, is_empty,
  strip, ◌⊎◌,
}
use gpthands.Json.{obj, get, pop, put, get_in, as_fields, equals_int}
use gpthands.Audit.Defs.{
  LogFile, raw_lines, append_line, is_blank, concat, audit_meta, start, start_chain, step,
  check_event, check_link, to_int, to_str, run, finish, verify_stream, canonical_event, event_hash,
}
use gpthands.Audit.Redact.{redact_text}
use gpthands.Audit.Append.{record_event, new_event, sanitize}
use gpthands.Audit.Samples.{
  empty_log, empty_run, line_read, quiet_io, quiet, audit_fields, loads, runtime, pad, count-pad,
  entry, event_fields,
}
use gpthands.Audit.Tail.{whole}
use gpthands.Audit.Recording.{IsKept, new_hash}
use gpthands.Audit.Appending.{record_event-verify_stream}
use gpthands.Audit.Seal.{sealed, hashed, Collision}
use gpthands.Audit.Evidence.{last_hash-sealed}

abbrev one_record : LogFile
one_record = record { lines = "line" ∷ []; rest = "" }

entry-IsKept : IsKept runtime entry start (event_fields (obj audit_fields)) audit_fields
unfolding sanitize loads redact_text string_discrete new_event start_chain get equals_int
entry-IsKept = record {
  sanitized = refl;
  has_audit = refl;
  unhashed = refl;
  version = refl;
  seq = refl;
  prev_hash = refl;
}

record_event-verify_stream_example :
    (record_event runtime quiet_io entry empty_log ≡ (ok tt, append_line empty_log "line"))
    × (verify_stream runtime (append_line empty_log "line") ≡ record {
      valid = true;
      chained_records = 1;
      legacy_records = 0;
      anchored = true;
      last_hash = some (new_hash runtime start (event_fields (obj audit_fields)));
      fault = none;
    })
unfolding raw_lines is_empty concat
record_event-verify_stream_example =
    record_event-verify_stream runtime (λ t. count-pad 64 (drop_chars 65 t)) entry empty_log start
      (event_fields (obj audit_fields)) audit_fields refl empty_run (inr tt) (whole (omega arith))
      entry-IsKept line_read quiet_io quiet

one_record_verified :
    ((verify_stream runtime one_record).valid ≡ true)
    × ((verify_stream runtime one_record).chained_records ≡ 1)
unfolding verify_stream finish run raw_lines is_empty is_blank strip step check_event check_link
    start_chain loads string_discrete audit_meta get_in as_fields get pop put equals_int to_int
    to_str event_hash canonical_event pad drop_chars
one_record_verified = (refl, refl)

last_hash-sealed_example :
    (sealed runtime (raw_lines one_record) ≡ sealed runtime (raw_lines one_record))
    ⊎ Collision runtime
        (hashed runtime (raw_lines one_record))
        (hashed runtime (raw_lines one_record))
last_hash-sealed_example =
    last_hash-sealed runtime (λ t. count-pad 64 (drop_chars 65 t)) one_record one_record
      one_record_verified.0 one_record_verified.0 refl (omega (arith, one_record_verified.1)) refl
