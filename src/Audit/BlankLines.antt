-- ===== src/Audit/BlankLines.antt =====
-- A log without a chain that holds blank lines: `_verify_stream` skips them and `_chain_state_locked`
-- hashes them, so the two disagree about where the chain starts.
use gpthands.Prelude.{
  ◌≤◌, String, true, false, Option, none, some, ◌≡◌, ◌≢◌, refl, arith, ok, is_empty,
}
use gpthands.Json.{pos, Fields}
use gpthands.Audit.Defs.{
  Runtime, LogFile, raw_lines, finished, append_line, Scan, next, start, start_chain, step,
  check_event, check_link, run, finish, verify_stream, concat, failed, previous_mismatch,
}
use gpthands.Audit.Append.{
  Entry, LogIo, next_line, record_event, legacy_state, state_after, chain_state,
}
use gpthands.Audit.Chain.{
  raw_lines-append_line, run-append, Tail, untouched, unchained, chained, Tail-run, last_body,
}
use gpthands.Audit.Tail.{FitsTail, last_nonempty_line-FitsTail}
use gpthands.Audit.State.{verify_stream-next}
use gpthands.Audit.Recording.{
  IsKept, IsReadBack, IsQuiet, new_line, record_line_lem, record_event-quiet, audit_meta-read,
  seq-read, prev_hash-read,
}

module _ (rt : Runtime) (f : LogFile) (s : Scan) (verified : run rt start (raw_lines f) ≡ next s)
    (no_chain : s.chained ≡ 0) (some_legacy : 1 ≤ s.legacy)
    (written : is_empty (concat (raw_lines f)) ≡ false) where
  -- The scan that hashes every byte of the file.
  abbrev pub whole : Scan
  whole = record s { legacy_bytes = concat (raw_lines f) }

  legacy_state-whole :
      s.expected_seq ≡ 1
      → s.chain_started ≡ false
      → legacy_state rt f ≡ ok (pos s.expected_seq, (start_chain rt whole).previous)
  unfolding legacy_state start_chain finish
  legacy_state-whole x c = ground (arith, verify_stream-next rt f s verified)

  unchained_start : {o : Option String} → Tail rt s o → s.chain_started ≡ false
  unchained_start (untouched e h) = absurd (ground arith)
  unchained_start (unchained b event e l m c x n g) = c
  unchained_start (chained b event audit e l m q h p c x g) = absurd (omega arith)

  state_after-whole :
      {o : Option String}
      → Tail rt s o
      → state_after rt f o ≡ ok (pos s.expected_seq, (start_chain rt whole).previous)
  unfolding state_after
  state_after-whole (untouched e h) = absurd (ground arith)
  state_after-whole (unchained b event e l m c x n g) =
      rw e (ground (arith, legacy_state-whole n c))
  state_after-whole (chained b event audit e l m q h p c x g) = absurd (omega arith)

  tail : Tail rt s (last_body none (raw_lines f))
  tail = Tail-run rt start s none (raw_lines f) (untouched refl refl) verified

  chain_state-whole :
      FitsTail f → chain_state rt f ≡ ok (pos s.expected_seq, (start_chain rt whole).previous)
  unfolding chain_state
  chain_state-whole fits = rw (last_nonempty_line-FitsTail f fits) (state_after-whole tail)

  module _ (e : Entry) (fields audit : Fields) (kept : IsKept rt e whole fields audit)
      (terminated : f.rest ≡ "") (fits : FitsTail f) (back : IsReadBack rt whole fields audit)
      (io : LogIo) (quiet : IsQuiet io)
      (differ : rt.sha256 (concat (raw_lines f)) ≢ rt.sha256 s.legacy_bytes) where
    abbrev appended : LogFile
    appended = append_line f (new_line rt whole fields audit)

    expected_seq-start_chain : (start_chain rt s).expected_seq ≡ s.expected_seq
    unfolding start_chain
    expected_seq-start_chain = ground arith

    previous_differs : (start_chain rt whole).previous ≢ (start_chain rt s).previous
    unfolding start_chain
    previous_differs p = differ (ground (arith, unchained_start tail))

    step-mismatch :
        step rt s (finished (new_line rt whole fields audit))
        ≡ failed (start_chain rt s) true (some (start_chain rt s).previous) previous_mismatch
    unfolding step check_event check_link
    step-mismatch = ground (
      arith,
      back.reads,
      back.printed,
      audit_meta-read rt e whole fields audit kept back,
      seq-read rt e whole fields audit kept back,
      prev_hash-read rt e whole fields audit kept back,
      previous_differs,
      expected_seq-start_chain,
    )

    next_line-new : next_line rt e f ≡ ok (new_line rt whole fields audit)
    unfolding next_line
    next_line-new = rw (chain_state-whole fits, record_line_lem rt e whole fields audit kept)

    -- On a verified log without a chain, whose bytes do not hash like its lines that are not blank,
    -- `record` succeeds, and the log that it leaves fails verification at the record just written,
    -- whose previous hash is not the one expected. The log is open, ends in a newline and fits the tail
    -- window, the lock is taken and the operating system writes and syncs the whole line; the redaction is
    -- assumed to leave the new record's audit object alone, and the written line to read back as the
    -- record but for the order of its keys.
    pub record_event-blank_legacy :
        (record_event rt io e f ≡ (ok tt, appended))
        × ((verify_stream rt appended).valid ≡ false)
        × ((verify_stream rt appended).fault ≡ some previous_mismatch)
    unfolding verify_stream finish
    record_event-blank_legacy =
        let ended = raw_lines-append_line f (new_line rt whole fields audit) terminated in
        (
          record_event-quiet rt io e f _ quiet next_line-new,
          rw (ended, run-append, verified) (unfold run in (ground (arith, step-mismatch))),
          rw (ended, run-append, verified) (unfold run in (ground (arith, step-mismatch))),
        )
