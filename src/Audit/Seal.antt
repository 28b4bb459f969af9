-- ===== src/Audit/Seal.antt =====
-- The chain of src/gpthands/audit.py as a seal: a hash over the canonical texts of the records, one after
-- the other.
use package.text.Mathlib.TextEquality.{eq_iff}
use text.Mathlib.TextLemmas.{append_inj}
use gpthands.Prelude.{
  ◌+◌, String, ◌<>◌, true, none, some, List, [], ◌∷◌, ◌++◌, ◌≡◌, ◌≢◌, refl, sym, ◌∙◌, arith, ◌⊎◌,
  inl, inr, ap, elem, =?_refl, count, length, string_discrete, if◌then◌else◌,
}
use gpthands.Json.{get}
use gpthands.Audit.Defs.{
  Runtime, RawLine, is_blank, audit_meta, canonical_event, to_str, event_hash, Scan, next,
  start_chain, check_link, check_event, step,
}

module _ (rt : Runtime) where
  -- The canonical texts of the chained records among lines.
  unfoldable pub sealed : List RawLine → List String
  sealed [] = []
  sealed (l ∷ ls) =
      let rest = sealed ls in
      if is_blank l then rest else elim (rt.loads l.body) [
        | none ↦ rest
        | some event ↦ elim (audit_meta event) [
          | none ↦ rest
          | some audit ↦ canonical_event rt event ∷ rest
        ]
      ]

  -- The texts whose hashes the chained records among lines carry: the previous hash that a record names,
  -- and its canonical text.
  unfoldable pub hashed : List RawLine → List String
  hashed [] = []
  hashed (l ∷ ls) =
      let rest = hashed ls in
      if is_blank l then rest else elim (rt.loads l.body) [
        | none ↦ rest
        | some event ↦ elim (audit_meta event) [
          | none ↦ rest
          | some audit ↦
              (to_str rt (get "prev_hash" audit) <> ("\n" <> canonical_event rt event)) ∷ rest
        ]
      ]

  -- A text of one list and another one of the other that the hash does not tell apart.
  pub Collision : List String → List String → Type 0
  Collision xs ys =
      (a : String) × (b : String) × (elem a xs ≡ true)
      × (elem b ys ≡ true)
      × (a ≢ b)
      × (rt.sha256 a ≡ rt.sha256 b)

  Collision-cons :
      (x y : String) (xs ys : List String) → Collision xs ys → Collision (x ∷ xs) (y ∷ ys)
  unfolding Collision elem
  Collision-cons x y xs ys (a, b, ha, hb, differ, same) =
      (a, b, ground arith, ground arith, differ, same)

  abbrev link : String → String → String
  link prev text = rt.sha256 (prev <> ("\n" <> text))

  -- The last hash of a chain over texts.
  unfoldable pub seal : String → List String → String
  seal prev [] = prev
  seal prev (c ∷ cs) = seal (link prev c) cs

  -- The texts that such a chain hashes.
  unfoldable pub inputs : String → List String → List String
  inputs prev [] = []
  inputs prev (c ∷ cs) = (prev <> ("\n" <> c)) ∷ inputs (link prev c) cs

  pub inputs-append :
      (p : String) (cs ds : List String)
      → inputs p (cs ++ ds) ≡ inputs p cs ++ inputs (seal p cs) ds
  unfolding inputs seal
  inputs-append p [] ds = refl
  inputs-append p (c ∷ cs) ds =
      ap (λ rest. (p <> ("\n" <> c)) ∷ rest) (inputs-append (link p c) cs ds)

  -- One line, of a chain that has started.
  pub step-sealed :
      (s t : Scan) (l : RawLine)
      → s.chain_started ≡ true
      → step rt s l ≡ next t
      → (t.chain_started ≡ true)
        × (t.chained ≡ s.chained + length (sealed (l ∷ [])))
        × (t.previous ≡ seal s.previous (sealed (l ∷ [])))
        × (hashed (l ∷ []) ≡ inputs s.previous (sealed (l ∷ [])))
  unfolding step check_event start_chain check_link sealed seal event_hash hashed inputs
  step-sealed s t l c h = grind (arith, eq_iff)

  pub sealed-cons :
      (l : RawLine) (ls : List RawLine) → sealed (l ∷ ls) ≡ sealed (l ∷ []) ++ sealed ls
  unfolding sealed
  sealed-cons l ls = ground arith

  pub hashed-cons :
      (l : RawLine) (ls : List RawLine) → hashed (l ∷ ls) ≡ hashed (l ∷ []) ++ hashed ls
  unfolding hashed
  hashed-cons l ls = ground arith

  pub seal-append : (p : String) (cs ds : List String) → seal p (cs ++ ds) ≡ seal (seal p cs) ds
  unfolding seal
  seal-append p [] ds = refl
  seal-append p (c ∷ cs) ds = seal-append (link p c) cs ds

  module _ (sha256-count : (t : String) → count (rt.sha256 t) ≡ 64) where
    link-injective :
        (p q c d : String)
        → count p ≡ 64
        → count q ≡ 64
        → link p c ≡ link q d
        → ((p ≡ q) × (c ≡ d)) ⊎ ((p <> ("\n" <> c)) ≢ (q <> ("\n" <> d)))
    link-injective p q c d hp hq h = elim (string_discrete (p <> ("\n" <> c)) (q <> ("\n" <> d))) [
      | no n ↦ inr n
      | yes e ↦ let both = append_inj e (hp ∙ sym hq) in inl (both.0, (append_inj both.1 refl).1)
    ]

    pub seal-injective :
        (p q : String) (cs ds : List String)
        → count p ≡ 64
        → count q ≡ 64
        → length cs ≡ length ds
        → seal p cs ≡ seal q ds
        → ((p ≡ q) × (cs ≡ ds)) ⊎ Collision (inputs p cs) (inputs q ds)
    unfolding seal inputs
    seal-injective p q [] [] hp hq n h = inl (h, refl)
    seal-injective p q [] (d ∷ ds) hp hq n h = absurd (omega arith)
    seal-injective p q (c ∷ cs) [] hp hq n h = absurd (omega arith)
    seal-injective p q (c ∷ cs) (d ∷ ds) hp hq n h =
        elim (seal-injective (link p c) (link q d) cs ds (sha256-count _) (sha256-count _)
          (omega arith) h) [
            | inr bad ↦ inr (Collision-cons _ _ _ _ bad)
            | inl (e, rest) ↦ elim (link-injective p q c d hp hq e) [
              | inr differ ↦ inr (
                  unfold Collision elem in
                  (
                    p <> ("\n" <> c),
                    q <> ("\n" <> d),
                    ground (arith, =?_refl (p <> ("\n" <> c))),
                    ground (arith, =?_refl (q <> ("\n" <> d))),
                    differ,
                    e,
                  ))
              | inl (same, head) ↦ inl (same, cc)
            ]
          ]
