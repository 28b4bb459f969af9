-- ===== src/ReleaseGate/Promotion.antt =====
-- The files of a promotion, after and before the clean-up of their names.
use gpthands.Prelude.{
  String, Bool, true, some, List, [], ◌∷◌, ◌≡◌, ◌≢◌, ◌⊎◌, inl, inr, arith, elem, all, All, is_empty,
  ok, =?_refl, string_discrete, Result-cases, Bool-cases,
}
use gpthands.ReleaseGate.Defs.{
  is_stable_version, allowed_promotion_files, add_sorted, item_of, normalize_changed_files,
  ReviewFile, ReleaseGateResult, ZoneOf, verify_release_gate,
}
use gpthands.ReleaseGate.Review.{IsPromotion, verify_release_gate_iff}

elem-add_sorted : (x : String) (items : List String) → elem x (add_sorted x items) ≡ true
unfolding elem add_sorted
elem-add_sorted x [] = ground (arith, =?_refl x)
elem-add_sorted x (y ∷ ys) = ground (arith, =?_refl x, elem-add_sorted x ys)

elem-add_sorted_mono :
    (x y : String) (items : List String) → elem x items ≡ true → elem x (add_sorted y items) ≡ true
unfolding elem add_sorted
elem-add_sorted_mono x y [] h = ground arith
elem-add_sorted_mono x y (z ∷ items) h = ground (arith, elem-add_sorted_mono x y items)

-- The name cleans up to nothing, or to one of the items.
abbrev pub Listed : List String → String → Type 0
Listed items value = (is_empty (item_of value) ≡ true) ⊎ (elem (item_of value) items ≡ true)

Listed-more :
    (values items more : List String)
    → ((x : String) → elem x items ≡ true → elem x more ≡ true)
    → All (Listed items) values
    → All (Listed more) values
Listed-more [] items more up h = tt
Listed-more (v ∷ vs) items more up (inl e, rest) = (inl e, Listed-more vs items more up rest)
Listed-more (v ∷ vs) items more up (inr e, rest) = (inr (up _ e), Listed-more vs items more up rest)

normalize-Listed :
    (values items : List String)
    → normalize_changed_files values ≡ ok items
    → All (Listed items) values
unfolding normalize_changed_files
normalize-Listed [] items h = tt
normalize-Listed (v ∷ vs) items h = elim (Result-cases (normalize_changed_files vs)) [
  | inl (e, n) ↦ absurd (ground arith)
  | inr (found, n) ↦
      let there = normalize-Listed vs found n in
      elim (Bool-cases (is_empty (item_of v))) [
        | inl blank ↦ (inl blank, Listed-more vs found items (λ x k. ground arith) there)
        | inr full ↦ (
          inr (ground (arith, elem-add_sorted (item_of v) found)),
          Listed-more vs found items
              (λ x k. ground (arith, elem-add_sorted_mono x (item_of v) found k)) there,
        )
      ]
]

elem-all :
    (p : String → Bool) (x : String) (items : List String)
    → all p items ≡ true
    → elem x items ≡ true
    → p x ≡ true
unfolding elem
elem-all p x [] a h = ground arith
elem-all p x (y ∷ items) a h = elim (string_discrete x y) [
  | yes same ↦ ground arith
  | no differ ↦ elem-all p x items (ground arith) (ground arith)
]

All-permitted :
    (version : String) (values changed : List String)
    → all (λ f. elem f (allowed_promotion_files version)) changed ≡ true
    → All (Listed changed) values
    → All (Listed (allowed_promotion_files version)) values
All-permitted version values changed permitted listed =
    Listed-more values changed _
      (λ x k. elem-all (λ f. elem f (allowed_promotion_files version)) x changed permitted k) listed

module _ (zone_of : ZoneOf) (version current : String) (files : List String) where
  -- Where the gate lets a stable version through at another commit than the reviewed one, every file
  -- of the promotion, in whatever spelling it is given, cleans up to an empty name or to one of
  -- the six files that a promotion may change.
  pub promotion_allowed :
      (file : ReviewFile) (r : ReleaseGateResult)
      → is_stable_version version ≡ true
      → verify_release_gate zone_of version current (some files) file ≡ ok r
      → r.reviewed_commit ≢ some current
      → All (Listed (allowed_promotion_files version)) files
  unfolding IsPromotion
  promotion_allowed file r stable h moved =
      let a = (verify_release_gate_iff zone_of version current (some files) file r stable).0 h in
      elim a.approved.promotion [
        | inl same ↦ absurd (moved (ground (arith, a.returned)))
        | inr (_, permitted, _) ↦
            All-permitted version files a.changed permitted
              (normalize-Listed files a.changed a.approved.normalized)
      ]
