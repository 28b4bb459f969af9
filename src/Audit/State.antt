-- ===== src/Audit/State.antt =====
-- `_chain_state_locked` finds where a verified file has come to.
use Prim.Native.String.append
use text.Mathlib.TextLemmas.{append-nil, append_assoc, nil-append as nil_append}
use gpthands.Prelude.{
  ◌+◌, ◌≤◌, String, ◌<>◌, true, false, Option, none, some, List, [], ◌∷◌, ◌≡◌, refl, ◌∙◌, ap, arith,
  ◌⊎◌, inl, inr, ok, count, is_empty, strip, All,
}
use gpthands.Json.{pos, Json, Fields, get}
use gpthands.Audit.Defs.{
  Runtime, RawLine, raw, LogFile, raw_lines, concat, is_blank, to_int, to_str, event_hash,
  canonical_event, Scan, Step, next, stop, start, start_chain, check_event, check_link, step, run,
  finish, verify_stream, AuditVerification,
}
use gpthands.Audit.Append.{legacy_state, chained_state, state_after, chain_state}
use gpthands.Audit.Chain.{Tail, untouched, unchained, chained, Tail-run, on_next-eq-next}
use gpthands.Audit.Tail.{FitsTail, last_nonempty_line-FitsTail}

abbrev pub NoBlank : List RawLine → Type 0
NoBlank = All (λ l. is_blank l ≡ false)

-- A log without a chain has no blank line, so that its bytes are those that were hashed.
abbrev pub IsAnchored : LogFile → Scan → Type 0
IsAnchored f s = (1 ≤ s.chained) ⊎ NoBlank (raw_lines f)

-- A body that is not blank is not empty, whatever follows it.
is_empty-body :
    (b newline more : String)
    → is_empty (strip b) ≡ false
    → is_empty ((b <> newline) <> more) ≡ false
unfolding is_empty strip
is_empty-body String.[] newline more h = cc
is_empty-body (String.◌∷◌ c b) newline more h = simp append.cons

Step-cases : (st : Step) → ((s : Scan) × (st ≡ next s)) ⊎ ((v : AuditVerification) × (st ≡ stop v))
Step-cases (next s) = inl (s, refl)
Step-cases (stop v) = inr (v, refl)

module _ (rt : Runtime) where
  -- A step over a line that is not blank and leaves the scan unchained has added it to the bytes.
  step-legacy_bytes :
      (s t : Scan) (l : RawLine)
      → is_blank l ≡ false
      → step rt s l ≡ next t
      → t.chain_started ≡ false
      → t.legacy_bytes ≡ s.legacy_bytes <> raw l
  unfolding step check_event start_chain check_link
  step-legacy_bytes s t l h k c = ground arith

  started-step :
      (s t : Scan) (l : RawLine)
      → step rt s l ≡ next t
      → t.chain_started ≡ false
      → s.chain_started ≡ false
  unfolding step check_event start_chain check_link
  started-step s t l k c = ground arith

  started-run :
      (s t : Scan) (ls : List RawLine)
      → run rt s ls ≡ next t
      → t.chain_started ≡ false
      → s.chain_started ≡ false
  unfolding run
  started-run s t [] k c = ground arith
  started-run s t (l ∷ ls) k c =
      let (u, e, r) = on_next-eq-next (step rt s l) (λ x. run rt x ls) k in
      started-step s u l e (started-run u t ls r c)

  run-legacy_bytes :
      (s t : Scan) (ls : List RawLine)
      → NoBlank ls
      → run rt s ls ≡ next t
      → t.chain_started ≡ false
      → t.legacy_bytes ≡ s.legacy_bytes <> concat ls
  unfolding run concat
  run-legacy_bytes s t [] h k c = ground (arith, append-nil s.legacy_bytes)
  run-legacy_bytes s t (l ∷ ls) (b, h) k c =
      let (u, e, r) = on_next-eq-next (step rt s l) (λ x. run rt x ls) k in
      run-legacy_bytes u t ls h r c
      ∙ ap (λ x. x <> concat ls) (step-legacy_bytes s u l b e (started-run u t ls r c))
      ∙ append_assoc s.legacy_bytes (raw l) (concat ls)

  step-stop :
      (s : Scan) (l : RawLine) (v : AuditVerification) → step rt s l ≡ stop v → v.valid ≡ false
  unfolding step check_event start_chain check_link
  step-stop s l v h = ground arith

  pub run-stop :
      (s : Scan) (ls : List RawLine) (v : AuditVerification)
      → run rt s ls ≡ stop v
      → v.valid ≡ false
  unfolding run
  run-stop s [] v h = absurd (ground arith)
  run-stop s (l ∷ ls) v h = elim (Step-cases (step rt s l)) [
    | inl (u, e) ↦ run-stop u ls v (ground arith)
    | inr (w, e) ↦ step-stop s l v (ground arith)
  ]

  -- A file that verifies has been scanned to its end.
  pub verify_stream-scan :
      (f : LogFile)
      → (verify_stream rt f).valid ≡ true
      → (s : Scan) × (run rt start (raw_lines f) ≡ next s)
  unfolding verify_stream finish
  verify_stream-scan f h = elim (Step-cases (run rt start (raw_lines f))) [
    | inl found ↦ found
    | inr (v, e) ↦ absurd (ground (arith, run-stop start (raw_lines f) v e))
  ]

  pub verify_stream-next :
      (f : LogFile) (s : Scan)
      → run rt start (raw_lines f) ≡ next s
      → verify_stream rt f ≡ finish rt (next s)
  unfolding verify_stream
  verify_stream-next f s h = ap (finish rt) h

  is_empty-concat :
      (s : Scan) (ls : List RawLine)
      → NoBlank ls
      → run rt start ls ≡ next s
      → 1 ≤ s.legacy
      → is_empty (concat ls) ≡ false
  unfolding run concat is_blank
  is_empty-concat s [] nb r g = absurd (ground arith)
  is_empty-concat s (l ∷ ls) (b, nb) r g = is_empty-body l.body l.newline (concat ls) b

module _ (rt : Runtime) (sha256-count : (t : String) → count (rt.sha256 t) ≡ 64) where
  state-legacy :
      (f : LogFile) (s : Scan)
      → run rt start (raw_lines f) ≡ next s
      → NoBlank (raw_lines f)
      → s.chain_started ≡ false
      → s.chained ≡ 0
      → s.expected_seq ≡ 1
      → 1 ≤ s.legacy
      → legacy_state rt f ≡ ok (pos s.expected_seq, (start_chain rt s).previous)
  unfolding legacy_state start_chain finish
  state-legacy f s r nb c x e g = ground (
    arith,
    verify_stream-next rt f s r,
    nil_append (concat (raw_lines f)),
    run-legacy_bytes rt start s (raw_lines f) nb r c,
    is_empty-concat rt s (raw_lines f) nb r g,
  )

  state-chained :
      (s : Scan) (event : Json) (audit : Fields)
      → to_int rt (get "seq" audit) ≡ some (pos s.chained)
      → to_str rt (get "hash" audit) ≡ s.previous
      → s.previous ≡ event_hash rt event (to_str rt (get "prev_hash" audit))
      → s.chain_started ≡ true
      → s.expected_seq ≡ s.chained + 1
      → chained_state rt event audit ≡ ok (pos s.expected_seq, (start_chain rt s).previous)
  unfolding chained_state start_chain event_hash
  state-chained s event audit q h p c x = ground (
    arith,
    sha256-count (to_str rt (get "prev_hash" audit) <> ("\n" <> canonical_event rt event)),
  )

  state_after-Tail :
      (f : LogFile) (s : Scan) (o : Option String)
      → run rt start (raw_lines f) ≡ next s
      → IsAnchored f s
      → Tail rt s o
      → state_after rt f o ≡ ok (pos s.expected_seq, (start_chain rt s).previous)
  unfolding state_after
  state_after-Tail f s o r anchored (untouched e h) = rw (e, h) (unfold start_chain in refl)
  state_after-Tail f s o r (inl k) (unchained b event e l m c x n g) = absurd (omega arith)
  state_after-Tail f s o r (inr nb) (unchained b event e l m c x n g) =
      rw e (ground (arith, state-legacy f s r nb c x n g))
  state_after-Tail f s o r anchored (chained b event audit e l m q h p c x g) =
      rw e (ground (arith, state-chained s event audit q h p c x))

  -- The next sequence number and the previous hash are those that verification expects next.
  pub chain_state_lem :
      (f : LogFile) (s : Scan)
      → run rt start (raw_lines f) ≡ next s
      → IsAnchored f s
      → FitsTail f
      → chain_state rt f ≡ ok (pos s.expected_seq, (start_chain rt s).previous)
  unfolding chain_state
  chain_state_lem f s r anchored fits = rw (last_nonempty_line-FitsTail f fits) (
      state_after-Tail f s _ r anchored
        (Tail-run rt start s none (raw_lines f) (untouched refl refl) r))
