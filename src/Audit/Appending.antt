-- ===== src/Audit/Appending.antt =====
-- The whole of `AuditLogger.record`, from one verified log to the next.
use gpthands.Prelude.{◌+◌, String, true, none, some, ◌≡◌, ◌∙◌, ap, arith, ok, count}
use gpthands.Json.{Fields}
use gpthands.Audit.Defs.{
  Runtime, LogFile, raw_lines, append_line, Scan, next, start, start_chain, run, finish,
  verify_stream,
}
use gpthands.Audit.Append.{Entry, LogIo, next_line, record_event}
use gpthands.Audit.Chain.{raw_lines-append_line, run-append}
use gpthands.Audit.Tail.{FitsTail}
use gpthands.Audit.State.{IsAnchored, chain_state_lem}
use gpthands.Audit.Recording.{
  IsKept, IsReadBack, IsQuiet, new_hash, new_line, advanced, record_line_lem, record_event-quiet,
  step-read,
}

module _ (rt : Runtime) (sha256-count : (t : String) → count (rt.sha256 t) ≡ 64) (e : Entry)
    (f : LogFile) (s : Scan) (fields audit : Fields) (terminated : f.rest ≡ "")
    (verified : run rt start (raw_lines f) ≡ next s) (anchored : IsAnchored f s) (fits : FitsTail f)
    (kept : IsKept rt e s fields audit) (back : IsReadBack rt s fields audit) (io : LogIo)
    (quiet : IsQuiet io) where
  abbrev appended : LogFile
  appended = append_line f (new_line rt s fields audit)

  next_line-new : next_line rt e f ≡ ok (new_line rt s fields audit)
  unfolding next_line
  next_line-new = rw (
    chain_state_lem rt sha256-count f s verified anchored fits,
    record_line_lem rt e s fields audit kept,
  )

  run-appended : run rt start (raw_lines appended) ≡ next (advanced rt s fields)
  run-appended =
      rw (raw_lines-append_line f (new_line rt s fields audit) terminated, run-append, verified)
        (unfold run in (ground (arith, step-read rt e s fields audit kept back)))

  -- On a log that verifies and ends in a newline, whose last two lines or whole text fit in the tail
  -- window, and whose unchained part has no blank line, `record` succeeds, appends one line and
  -- leaves a log that verifies with one chained record more, whose last hash is that record's.
  -- The log is open, the lock is taken and the operating system writes and syncs the whole line; the
  -- redaction is assumed to leave the new record's audit object alone, and the written line to read
  -- back as the record but for the order of its keys. SHA-256 digests have 64 characters.
  pub record_event-verify_stream :
      (record_event rt io e f ≡ (ok tt, appended))
      × (verify_stream rt appended ≡ record {
        valid = true;
        chained_records = s.chained + 1;
        legacy_records = s.legacy;
        anchored = true;
        last_hash = some (new_hash rt s fields);
        fault = none;
      })
  unfolding verify_stream finish start_chain
  record_event-verify_stream = (
    record_event-quiet rt io e f _ quiet next_line-new,
    ap (finish rt) run-appended ∙ ground arith,
  )
