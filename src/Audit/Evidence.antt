-- ===== src/Audit/Evidence.antt =====
-- Tamper evidence: the last hash of a verified log determines its chained records.
use mathlib.Core.Option.{some-injective}
use mathlib.Core.Path.{subst}
use package.text.Mathlib.TextEquality.{eq_iff}
use gpthands.Prelude.{
  ◌+◌, ◌≤◌, String, Bool, true, false, Option, none, some, List, [], ◌∷◌, length-append, ◌≡◌, refl,
  sym, ◌∙◌, arith, ◌⊎◌, inl, inr, count, length, if◌then◌else◌, ◌==◌,
}
use gpthands.Audit.Defs.{
  Runtime, RawLine, LogFile, raw_lines, genesis_hash, event_hash, Scan, next, start, start_chain,
  check_link, check_event, step, run, finish, verify_stream,
}
use gpthands.Audit.Chain.{Tail, untouched, unchained, chained, Tail-run, on_next-eq-next}
use gpthands.Audit.Seal.{
  sealed, hashed, Collision, seal, inputs, inputs-append, sealed-cons, hashed-cons, seal-append,
  seal-injective, step-sealed,
}
use gpthands.Audit.State.{verify_stream-scan, verify_stream-next}

count-genesis_hash : count genesis_hash ≡ 64
count-genesis_hash = refl

module _ (rt : Runtime) where
  Tail-started :
      {s : Scan} {o : Option String} → Tail rt s o → 1 ≤ s.chained → s.chain_started ≡ true
  Tail-started (untouched e h) k = absurd (ground arith)
  Tail-started (unchained b event e l m c x n g) k = absurd (omega arith)
  Tail-started (chained b event audit e l m q h p c x g) k = c

  -- Lines, of a chain that has started.
  run-sealed :
      (s t : Scan) (ls : List RawLine)
      → s.chain_started ≡ true
      → run rt s ls ≡ next t
      → (t.chained ≡ s.chained + length (sealed rt ls))
        × (t.previous ≡ seal rt s.previous (sealed rt ls))
        × (hashed rt ls ≡ inputs rt s.previous (sealed rt ls))
  unfolding run
  run-sealed s t [] c h = unfold sealed seal hashed inputs in (ground arith)
  run-sealed s t (l ∷ ls) c h =
      let (u, e, r) = on_next-eq-next (step rt s l) (λ x. run rt x ls) h in
      let one = step-sealed rt s u l c e in
      let rest = run-sealed u t ls one.0 r in
      ground (
        arith,
        one,
        rest,
        sealed-cons rt l ls,
        hashed-cons rt l ls,
        inputs-append rt s.previous (sealed rt (l ∷ [])) (sealed rt ls),
        seal-append rt s.previous (sealed rt (l ∷ [])) (sealed rt ls),
        length-append {0} (sealed rt (l ∷ [])) (sealed rt ls),
      )

  module _ (sha256-count : (t : String) → count (rt.sha256 t) ≡ 64) where
    -- The line at which the chain starts, or one before it.
    step-anchor :
        (s t : Scan) (l : RawLine)
        → s.chain_started ≡ false
        → s.chained ≡ 0
        → step rt s l ≡ next t
        → ((t.chain_started ≡ false)
            × (t.chained ≡ 0)
            × (sealed rt (l ∷ []) ≡ [])
            × (hashed rt (l ∷ []) ≡ []))
          ⊎ ((t.chain_started ≡ true)
              × (t.chained ≡ length (sealed rt (l ∷ [])))
              × (t.previous ≡ seal rt (start_chain rt s).previous (sealed rt (l ∷ [])))
              × (hashed rt (l ∷ []) ≡ inputs rt (start_chain rt s).previous (sealed rt (l ∷ []))))
    unfolding step check_event start_chain check_link sealed seal event_hash hashed inputs
    step-anchor s t l c z h = grind (arith, eq_iff)

    count-anchor :
        (fresh : Bool) (bytes : String)
        → count (if fresh then genesis_hash else rt.sha256 bytes) ≡ 64
    count-anchor true bytes = count-genesis_hash
    count-anchor false bytes = sha256-count bytes

    count-start_chain :
        (s : Scan) → s.chain_started ≡ false → count (start_chain rt s).previous ≡ 64
    unfolding start_chain
    count-start_chain s c = rw c (count-anchor (s.legacy == 0) s.legacy_bytes)

    -- A log with a chain is sealed from some hash.
    run-anchor :
        (s t : Scan) (ls : List RawLine)
        → s.chain_started ≡ false
        → s.chained ≡ 0
        → run rt s ls ≡ next t
        → t.chain_started ≡ true
        → (p : String) × (count p ≡ 64)
          × (t.chained ≡ length (sealed rt ls))
          × (t.previous ≡ seal rt p (sealed rt ls))
          × (hashed rt ls ≡ inputs rt p (sealed rt ls))
    unfolding run
    run-anchor s t [] c z h v = absurd (ground arith)
    run-anchor s t (l ∷ ls) c z h v =
        let (u, e, r) = on_next-eq-next (step rt s l) (λ x. run rt x ls) h in
        elim (step-anchor s u l c z e) [
          | inl (uc, uz, none_here, none_hashed) ↦
              let (p, cp, n, k, i) = run-anchor u t ls uc uz r v in
              (
                p,
                cp,
                ground (arith, sealed-cons rt l ls),
                ground (arith, sealed-cons rt l ls),
                ground (arith, sealed-cons rt l ls, hashed-cons rt l ls),
              )
          | inr (uc, un, up, uh) ↦
              let rest = run-sealed u t ls uc r in
              (
                (start_chain rt s).previous,
                count-start_chain s c,
                ground (
                  arith,
                  rest,
                  sealed-cons rt l ls,
                  length-append {0} (sealed rt (l ∷ [])) (sealed rt ls),
                ),
                ground (
                  arith,
                  rest,
                  sealed-cons rt l ls,
                  seal-append rt (start_chain rt s).previous (sealed rt (l ∷ [])) (sealed rt ls),
                ),
                ground (
                  arith,
                  rest,
                  sealed-cons rt l ls,
                  hashed-cons rt l ls,
                  inputs-append rt (start_chain rt s).previous (sealed rt (l ∷ [])) (sealed rt ls),
                ),
              )
        ]

    -- A log that verifies with a chain is sealed from some hash, and reports the seal.
    verified-anchor :
        (f : LogFile)
        → (verify_stream rt f).valid ≡ true
        → 1 ≤ (verify_stream rt f).chained_records
        → (p : String) × (count p ≡ 64)
          × ((verify_stream rt f).chained_records ≡ length (sealed rt (raw_lines f)))
          × ((verify_stream rt f).last_hash ≡ some (seal rt p (sealed rt (raw_lines f))))
          × (hashed rt (raw_lines f) ≡ inputs rt p (sealed rt (raw_lines f)))
    unfolding finish
    verified-anchor f v n =
        let (s, e) = verify_stream-scan rt f v in
        let whole = verify_stream-next rt f s e in
        let c : s.chain_started ≡ true =
          Tail-started (Tail-run rt start s none (raw_lines f) (untouched refl refl) e)
            (ground arith) in
        let (p, cp, k, q, i) = run-anchor start s (raw_lines f) refl refl e c in
        (p, cp, ground (arith, whole), ground (arith, whole), i)

    -- Two logs that verify with as many chained records, at least one, and the same last hash hold
    -- the same chained records, in the same order, unless a chained record of one log and one of the
    -- other have different hashed texts, the previous hash that a record names and its canonical text,
    -- with one SHA-256. SHA-256 digests have 64 characters.
    pub last_hash-sealed :
        (f g : LogFile)
        → (verify_stream rt f).valid ≡ true
        → (verify_stream rt g).valid ≡ true
        → (verify_stream rt f).chained_records ≡ (verify_stream rt g).chained_records
        → 1 ≤ (verify_stream rt f).chained_records
        → (verify_stream rt f).last_hash ≡ (verify_stream rt g).last_hash
        → (sealed rt (raw_lines f) ≡ sealed rt (raw_lines g))
          ⊎ Collision rt (hashed rt (raw_lines f)) (hashed rt (raw_lines g))
    last_hash-sealed f g vf vg n pos h =
        let (p, cp, nf, hf, xf) = verified-anchor f vf pos in
        let (q, cq, ng, hg, xg) = verified-anchor g vg (omega arith) in
        elim (seal-injective rt sha256-count p q (sealed rt (raw_lines f)) (sealed rt (raw_lines g))
          cp cq (ground (arith, nf, ng, n)) (some-injective _ _ (sym hf ∙ h ∙ hg))) [
            | inl (same, events) ↦ inl events
            | inr bad ↦ inr (
                subst (λ xs. Collision rt xs (hashed rt (raw_lines g))) (sym xf)
                  (subst (λ ys. Collision rt (inputs rt p (sealed rt (raw_lines f))) ys) (sym xg)
                    bad))
          ]
