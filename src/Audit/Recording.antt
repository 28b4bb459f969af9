-- ===== src/Audit/Recording.antt =====
-- `AuditLogger.record` on a log that verifies.
use gpthands.Prelude.{◌+◌, String, true, false, none, some, ◌≡◌, arith, ok}
use gpthands.Json.{pos, Json, int, text, obj, Fields, get, put, get_in, as_fields, equals_int}
use gpthands.Audit.Defs.{
  Runtime, LogFile, append_line, written_whole, after_write, finished, is_blank, audit_meta, to_int,
  to_str, canonical_event, event_hash, Scan, next, start_chain, check_link, check_event, step,
}
use gpthands.Audit.Append.{
  Entry, new_event, set_hash, sanitize, record_line, LogIo, sync_answer, next_line, record_event,
}

-- sanitized["audit"]["hash"] = hash
abbrev pub stamp : Fields → Fields → String → Json
stamp fields audit hash = obj (put "audit" (obj (put "hash" (text hash) audit)) fields)

module _ (rt : Runtime) where
  -- What redaction and the JSON round trips leave of a new record: its audit object.
  pub record IsKept (e : Entry) (s : Scan) (fields audit : Fields) : Type 0 where
    pub sanitized :
        sanitize rt (new_event e (pos s.expected_seq) (start_chain rt s).previous)
        ≡ some (obj fields)
    pub has_audit : get "audit" fields ≡ some (obj audit)
    pub unhashed : get "hash" audit ≡ none
    pub version : equals_int (get "v" audit) 1 ≡ true
    pub seq : get "seq" audit ≡ some (int (pos s.expected_seq))
    pub prev_hash : get "prev_hash" audit ≡ some (text (start_chain rt s).previous)

  abbrev pub new_hash : Scan → Fields → String
  new_hash s fields = event_hash rt (obj fields) (start_chain rt s).previous

  abbrev pub new_line : Scan → Fields → Fields → String
  new_line s fields audit = rt.dumps_sorted (stamp fields audit (new_hash s fields))

  -- The scan after the new record.
  abbrev pub advanced : Scan → Fields → Scan
  advanced s fields = record (start_chain rt s) {
    previous = new_hash s fields;
    expected_seq = s.expected_seq + 1;
    chained = s.chained + 1;
  }

  -- What `loads` makes of the new line: a dict with the same audit object but for the order of its keys
  -- (the line is dumped with sorted keys), and with the same compact dump, which sorts the keys, too.
  pub record IsReadBack (s : Scan) (fields audit : Fields) : Type 0 where
    pub event : Fields
    pub event_audit : Fields
    pub reads : rt.loads (new_line s fields audit) ≡ some (obj event)
    pub has_audit : get "audit" event ≡ some (obj event_audit)
    pub version : get "v" event_audit ≡ get "v" audit
    pub seq : get "seq" event_audit ≡ get "seq" audit
    pub prev_hash : get "prev_hash" event_audit ≡ get "prev_hash" audit
    pub hash : get "hash" event_audit ≡ some (text (new_hash s fields))
    pub canonical : canonical_event rt (obj event) ≡ canonical_event rt (obj fields)
    pub printed : is_blank (finished (new_line s fields audit)) ≡ false

  pub record_line_lem :
      (e : Entry) (s : Scan) (fields audit : Fields)
      → IsKept e s fields audit
      → record_line rt
          (new_event e (pos s.expected_seq) (start_chain rt s).previous)
          (start_chain rt s).previous
        ≡ ok (new_line s fields audit)
  unfolding record_line set_hash
  record_line_lem e s fields audit k = ground (arith, k.sanitized, k.has_audit)

  module _ (e : Entry) (s : Scan) (fields audit : Fields) (k : IsKept e s fields audit)
      (back : IsReadBack s fields audit) where
    abbrev pub hash : String
    hash = new_hash s fields

    pub audit_meta-read : audit_meta (obj back.event) ≡ some back.event_audit
    unfolding audit_meta get_in as_fields
    audit_meta-read = ground (arith, back.has_audit, back.version, k.version)

    pub seq-read : to_int rt (get "seq" back.event_audit) ≡ some (pos s.expected_seq)
    unfolding to_int
    seq-read = ground (arith, k.seq, back.seq)

    pub prev_hash-read : to_str rt (get "prev_hash" back.event_audit) ≡ (start_chain rt s).previous
    unfolding to_str
    prev_hash-read = ground (arith, k.prev_hash, back.prev_hash)

    hash-read : to_str rt (get "hash" back.event_audit) ≡ hash
    unfolding to_str
    hash-read = ground (arith, back.hash)

    event_hash-read : event_hash rt (obj back.event) (start_chain rt s).previous ≡ hash
    unfolding event_hash
    event_hash-read = ground (arith, back.canonical)

    expected_seq-start_chain : (start_chain rt s).expected_seq ≡ s.expected_seq
    unfolding start_chain
    expected_seq-start_chain = ground arith

    chained-start_chain : (start_chain rt s).chained ≡ s.chained
    unfolding start_chain
    chained-start_chain = ground arith

    check_link-read :
        check_link rt (start_chain rt s) (obj back.event) back.event_audit
        ≡ next (advanced s fields)
    unfolding check_link
    check_link-read = ground (
      arith, seq-read, prev_hash-read, hash-read, event_hash-read, expected_seq-start_chain,
      chained-start_chain,
    )

    pub step-read : step rt s (finished (new_line s fields audit)) ≡ next (advanced s fields)
    unfolding step check_event
    step-read = ground (arith, back.reads, back.printed, audit_meta-read, check_link-read)

-- The operating system refuses `record` nothing, and writes the whole line.
pub record IsQuiet (io : LogIo) : Type 0 where
  pub is_open : io.is_open ≡ true
  pub locked : io.locked ≡ true
  pub readable : io.readable ≡ true
  pub whole : io.writes ≡ written_whole
  pub synced : io.syncs ≡ true

pub record_event-quiet :
    (rt : Runtime) (io : LogIo) (e : Entry) (f : LogFile) (line : String)
    → IsQuiet io
    → next_line rt e f ≡ ok line
    → record_event rt io e f ≡ (ok tt, append_line f line)
unfolding record_event sync_answer after_write
record_event-quiet rt io e f line quiet made =
    ground (arith, quiet.is_open, quiet.locked, quiet.readable, quiet.whole, quiet.synced)
