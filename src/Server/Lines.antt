-- ===== src/Server/Lines.antt =====
-- Lines of an input, read with a limit as `readline` does for src/gpthands/stable_server.py.
use Prim.Native.Char.{Char, code}
use Prim.Native.String.count
use gpthands.Prelude.{
  ℕ, zero, suc, ◌+◌, ◌≤◌, ◌<◌, String, true, false, ◌∷◌, ◌≡◌, refl, ap, sym, ◌∙◌, arith, ◌==◌,
  if◌then◌else◌, is_empty, cons_char, count, Bool-cases, inl, inr, ◌||◌, leb, leb→le,
}
use gpthands.Server.Serve.{readline, ends_line, skip_line, onto_line, lines_of}

-- The first line with its newline, and what follows it.
unfoldable pub first_line : String → String × String
first_line String.[] = ("", "")
first_line (String.◌∷◌ c s) =
    let rest = first_line s in
    if code c == 10 then (cons_char c "", s) else (cons_char c rest.0, rest.1)

-- The input is its first line and the lines after that.
pub lines_of-first_line :
    (c : Char) (s : String)
    → lines_of (cons_char c s)
      ≡ (first_line (cons_char c s)).0 ∷ lines_of (first_line (cons_char c s)).1
unfolding lines_of first_line onto_line
lines_of-first_line c String.[] = elim (Bool-cases (code c == 10)) [
  | inl ended ↦ rw ended refl
  | inr within ↦ rw within refl
]
lines_of-first_line c (String.◌∷◌ d s) = elim (Bool-cases (code c == 10)) [
  | inl ended ↦ ground (arith, ended)
  | inr within ↦ ground (arith, within, lines_of-first_line d s)
]

pub readline-first_line :
    (n : ℕ) (s : String) → count (first_line s).0 ≤ n → readline n s ≡ first_line s
unfolding readline first_line
readline-first_line zero String.[] h = refl
readline-first_line (suc n) String.[] h = refl
readline-first_line zero (String.◌∷◌ c s) h = elim (Bool-cases (code c == 10)) [
  | inl ended ↦ absurd (ground (arith, ended, count.cons c ""))
  | inr within ↦ absurd (ground (arith, within, count.cons c (first_line s).0))
]
readline-first_line (suc n) (String.◌∷◌ c s) h = elim (Bool-cases (code c == 10)) [
  | inl ended ↦ ground (arith, ended)
  | inr within ↦
      let shorter : count (first_line s).0 ≤ n =
        ground (arith, within, count.cons c (first_line s).0) in
      ground (arith, within, readline-first_line n s shorter)
]

-- What `readline` reads of a first line that is longer than its limit.
pub record IsCut (n : ℕ) (s : String) : Type 0 where
  pub full : count (readline n s).0 ≡ n
  pub left : n + count (readline n s).1 ≡ count s
  pub same_line : (first_line (readline n s).1).1 ≡ (first_line s).1
  pub unended : ends_line (readline n s).0 ≡ false

ends_line-cons :
    (c : Char) (t : String)
    → (code c == 10) ≡ false
    → ends_line t ≡ false
    → ends_line (cons_char c t) ≡ false
unfolding ends_line
ends_line-cons c String.[] h k = h
ends_line-cons c (String.◌∷◌ d t) h k = k

pub readline-IsCut : (n : ℕ) (s : String) → n < count (first_line s).0 → IsCut n s
unfolding readline first_line
readline-IsCut zero s h =
    unfold ends_line in record { full = refl; left = omega arith; same_line = refl; unended = refl }
readline-IsCut (suc n) String.[] h = absurd (omega (arith, h))
readline-IsCut (suc n) (String.◌∷◌ c s) h = elim (Bool-cases (code c == 10)) [
  | inl ended ↦ absurd (ground (arith, ended, count.cons c ""))
  | inr within ↦
      let longer : n < count (first_line s).0 =
        ground (arith, within, count.cons c (first_line s).0) in
      let cut = readline-IsCut n s longer in
      record {
        full = ground (arith, within, count.cons c (readline n s).0, cut.full);
        left = ground (arith, within, count.cons c s, cut.left);
        same_line = ground (arith, within, cut.same_line);
        unended = ground (arith, within, ends_line-cons c (readline n s).0 within cut.unended);
      }
]

ends_line-tail : (c : Char) (t : String) → ends_line (cons_char c t) ≡ false → ends_line t ≡ false
unfolding ends_line
ends_line-tail c String.[] h = refl
ends_line-tail c (String.◌∷◌ d t) h = h

ends_line-newline : (c : Char) → ends_line (cons_char c "") ≡ (code c == 10)
unfolding ends_line
ends_line-newline c = refl

first_line-within :
    (c : Char) (s : String)
    → (code c == 10) ≡ false
    → first_line (cons_char c s) ≡ (cons_char c (first_line s).0, (first_line s).1)
unfolding first_line
first_line-within c s h = rw h refl

first_line-ended :
    (c : Char) (s : String)
    → (code c == 10) ≡ true
    → first_line (cons_char c s) ≡ (cons_char c "", s)
unfolding first_line
first_line-ended c s h = rw h refl

-- A first line without a newline is the whole input.
pub first_line-unended : (s : String) → ends_line (first_line s).0 ≡ false → (first_line s).1 ≡ ""
first_line-unended String.[] h = unfold first_line in refl
first_line-unended (String.◌∷◌ c s) h = elim (Bool-cases (code c == 10)) [
  | inl ended ↦ absurd (ground (arith, h, ended, first_line-ended c s ended, ends_line-newline c))
  | inr within ↦
      let same = first_line-within c s within in
      let tail : ends_line (first_line s).0 ≡ false =
        ends_line-tail c _ (sym (ap (λ r. ends_line r.0) same) ∙ h) in
      ap (λ r. r.1) same ∙ first_line-unended s tail
]

pub is_empty-first_line : (s : String) → is_empty (first_line s).0 ≡ is_empty s
unfolding is_empty
is_empty-first_line String.[] = unfold first_line in refl
is_empty-first_line (String.◌∷◌ c s) = elim (Bool-cases (code c == 10)) [
  | inl ended ↦ ap (λ r. is_empty r.0) (first_line-ended c s ended)
  | inr within ↦ ap (λ r. is_empty r.0) (first_line-within c s within)
]

-- The first line and what follows are together as long as the input.
pub count-first_line : (s : String) → count (first_line s).0 + count (first_line s).1 ≡ count s
count-first_line String.[] = unfold first_line in refl
count-first_line (String.◌∷◌ c s) = elim (Bool-cases (code c == 10)) [
  | inl ended ↦ ground (arith, first_line-ended c s ended, count.cons c "", count.cons c s)
  | inr within ↦ ground (
    arith,
    first_line-within c s within,
    count.cons c s,
    count.cons c (first_line s).0,
    count-first_line s,
  )
]

is_empty-count : (s : String) → is_empty s ≡ true → s ≡ ""
unfolding is_empty
is_empty-count String.[] h = refl
is_empty-count (String.◌∷◌ c s) h = absurd (ground arith)

pub is_empty-positive : (s : String) (n : ℕ) → count s ≡ suc n → is_empty s ≡ false
unfolding is_empty
is_empty-positive String.[] n h = absurd (omega (arith, h))
is_empty-positive (String.◌∷◌ c s) n h = refl

pub skip_line-empty : (fuel limit : ℕ) → skip_line fuel (suc limit) "" ≡ ""
unfolding skip_line readline is_empty
skip_line-empty zero limit = refl
skip_line-empty (suc fuel) limit = refl

-- With more fuel than characters, the inner loop stops right after the line.
pub skip_line-first_line :
    (fuel limit : ℕ) (s : String) → count s < fuel → skip_line fuel (suc limit) s ≡ (first_line s).1
unfolding skip_line
skip_line-first_line zero limit s h = absurd (omega (arith, h))
skip_line-first_line (suc fuel) limit s h =
    elim (Bool-cases (leb (count (first_line s).0) (suc limit))) [
      | inl short ↦
          let whole = readline-first_line (suc limit) s (leb→le _ _ short) in
          elim (Bool-cases (is_empty (first_line s).0 || ends_line (first_line s).0)) [
            | inl stops ↦ ground (arith, whole, stops)
            | inr goes ↦
                let gone : (first_line s).1 ≡ "" = first_line-unended s (ground (arith, goes)) in
                ground (arith, whole, goes, gone, skip_line-empty fuel limit)
          ]
      | inr long ↦
          let cut = readline-IsCut (suc limit) s (ground (arith, long)) in
          let filled = is_empty-positive (readline (suc limit) s).0 limit cut.full in
          ground (
            arith,
            cut.unended,
            filled,
            cut.same_line,
            skip_line-first_line fuel limit (readline (suc limit) s).1 (omega (arith, cut.left, h)),
          )
    ]
