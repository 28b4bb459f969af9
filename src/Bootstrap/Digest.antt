-- ===== src/Bootstrap/Digest.antt =====
-- Digests that `_normalize_sha256` has passed, in src/scripts/release_bootstrap.py.
use Prim.Native.Char.{Char, code}
use mathlib.Core.Path.{subst}
use package.text.Mathlib.TextEquality.{eq_iff}
use gpthands.Prelude.{
  String, Bool, true, false, ◌&&◌, ◌≡◌, refl, sym, ap, ◌∙◌, arith, ◌==◌, leb, Bool-cases,
  Result-cases, inl, inr, all_chars, is_space, lstrip, rstrip, cons_trimmed, strip, lower,
  cons_char, count, ok,
}
use gpthands.ReleaseGate.Defs.{is_lower_hex, is_digit}
use gpthands.Bootstrap.Wheel.{Wheel, normalize_sha256, verify_wheel_sha256}

&&-split : (a b : Bool) → (a && b) ≡ true → (a ≡ true) × (b ≡ true)
&&-split true b h = (refl, h)
&&-split false b h = cc

hex-space : (c : Char) → is_lower_hex (code c) ≡ true → is_space c ≡ false
unfolding is_lower_hex is_digit is_space
hex-space c h = ground arith

lstrip-hex : (s : String) → all_chars is_lower_hex s ≡ true → lstrip s ≡ s
unfolding all_chars lstrip
lstrip-hex String.[] h = refl
lstrip-hex (String.◌∷◌ c s) h = rw (hex-space c (&&-split _ _ h).0) refl

hex-upper :
    (c : Char) → is_lower_hex (code c) ≡ true → (leb b'A' (code c) && leb (code c) b'Z') ≡ false
unfolding is_lower_hex is_digit
hex-upper c h = ground arith

cons_trimmed_kept : (c : Char) (s : String) → is_space c ≡ false → cons_trimmed c s ≡ cons_char c s
unfolding cons_trimmed
cons_trimmed_kept c String.[] h = rw h refl
cons_trimmed_kept c (String.◌∷◌ d s) h = refl

rstrip-hex : (s : String) → all_chars is_lower_hex s ≡ true → rstrip s ≡ s
unfolding all_chars rstrip
rstrip-hex String.[] h = refl
rstrip-hex (String.◌∷◌ c s) h =
    let both = &&-split _ _ h in
    ap (cons_trimmed c) (rstrip-hex s both.1) ∙ cons_trimmed_kept c s (hex-space c both.0)

lower-hex : (s : String) → all_chars is_lower_hex s ≡ true → lower s ≡ s
unfolding all_chars lower
lower-hex String.[] h = refl
lower-hex (String.◌∷◌ c s) h =
    let both = &&-split _ _ h in rw (hex-upper c both.0) (ap (cons_char c) (lower-hex s both.1))

lower-strip-hex : (s : String) → all_chars is_lower_hex s ≡ true → lower (strip s) ≡ s
unfolding strip
lower-strip-hex s h = rw (lstrip-hex s h, rstrip-hex s h) (lower-hex s h)

-- What has been normalized is normal.
pub normalize_sha256_idem :
    (value digest : String)
    → normalize_sha256 value ≡ ok digest
    → normalize_sha256 digest ≡ ok digest
unfolding normalize_sha256
normalize_sha256_idem value digest h =
    elim (Bool-cases
      (count (lower (strip value)) == 64 && all_chars is_lower_hex (lower (strip value)))) [
        | inl good ↦
            let same : lower (strip value) ≡ digest = ground arith in
            let hex = subst (λ d. (count d == 64 && all_chars is_lower_hex d) ≡ true) same good in
            let chars = (&&-split (count digest == 64) (all_chars is_lower_hex digest) hex).1 in
            rw (lower-strip-hex digest chars) (ground (arith, hex))
        | inr bad ↦ absurd (ground arith)
      ]

-- A wheel that is accepted has the digest that was expected, which is normal.
pub verify_wheel_sha256-normal :
    (wheel : Wheel) (expected digest : String)
    → verify_wheel_sha256 wheel expected ≡ ok digest
    → (digest ≡ wheel.sha256) × (normalize_sha256 digest ≡ ok digest)
unfolding verify_wheel_sha256
verify_wheel_sha256-normal wheel expected digest h =
    elim (Result-cases (normalize_sha256 expected)) [
      | inl (e, fails) ↦ absurd (ground arith)
      | inr (normal, good) ↦
          let again = normalize_sha256_idem expected normal good in
          let same : (digest ≡ wheel.sha256) × (wheel.sha256 ≡ normal) =
            ground (arith, eq_iff wheel.sha256 normal) in
          (same.0, subst (λ d. normalize_sha256 d ≡ ok d) (sym (same.0 ∙ same.1)) again)
    ]
