-- ===== src/Server/Served.antt =====
-- `serve_stdio_bounded` of src/gpthands/stable_server.py ends, and handles its input line by line.
use Prim.Native.String.count
use mathlib.Core.Path.{subst}
use gpthands.Prelude.{
  ℕ, zero, suc, ◌≤◌, ◌<◌, String, Bool, true, false, Option, some, ◌≡◌, refl, ap, sym, ◌∙◌, arith,
  ltb, leb, leb→le, is_empty, cons_char, count, Bool-cases, inl, inr, ok,
}
use gpthands.Json.{Json, Fields}
use gpthands.Audit.Defs.{Runtime}
use gpthands.Server.Serve.{
  too_long, readline, ends_line, skip_line, lines_of, round, serve, serve_stdio_bounded,
  answer_line, answer_lines, emit,
}
use gpthands.Server.Lines.{
  first_line, lines_of-first_line, readline-first_line, readline-IsCut, first_line-unended,
  is_empty-first_line, is_empty-positive, count-first_line, skip_line-empty, skip_line-first_line,
}

count-positive : (s : String) → is_empty s ≡ false → 1 ≤ count s
unfolding is_empty
count-positive String.[] h = absurd (ground arith)
count-positive (String.◌∷◌ c s) h = omega (arith, count.cons c s)

readline-filled :
    (limit : ℕ) (input : String)
    → is_empty input ≡ false
    → is_empty (readline (suc limit) input).0 ≡ false
readline-filled limit input h = elim (Bool-cases (leb (count (first_line input).0) (suc limit))) [
  | inl short ↦
      ap (λ r. is_empty r.0) (readline-first_line (suc limit) input (leb→le _ _ short))
      ∙ is_empty-first_line input
      ∙ h
  | inr long ↦
      is_empty-positive _ limit (readline-IsCut (suc limit) input (ground (arith, long))).full
]

shorter :
    (input : String) (fuel : ℕ)
    → is_empty input ≡ false
    → count input < suc fuel
    → count (first_line input).1 < fuel
shorter input fuel h k = omega (
  arith,
  count-first_line input,
  count-positive (first_line input).0 (is_empty-first_line input ∙ h),
  k,
)

skip_line-unended :
    (limit : ℕ) (input : String)
    → ends_line (first_line input).0 ≡ false
    → skip_line (suc (count (first_line input).1)) (suc limit) (first_line input).1
      ≡ (first_line input).1
skip_line-unended limit input h =
    subst (λ x. skip_line (suc (count x)) (suc limit) x ≡ x) (sym (first_line-unended input h))
      (skip_line-empty _ limit)

module _ {S : Type 0} (rt : Runtime) (is_utf8 : String → Bool) (complaint : String → String)
    (handle : Fields → S → Option Json × S) where
  abbrev answered : ℕ → String → S → Option Json × S × String
  answered limit input st =
      let answer = answer_line rt is_utf8 complaint handle limit (first_line input).0 st in
      (answer.0, answer.1, (first_line input).1)

  -- A round answers the first line and goes on after it, however the line was read.
  round-answer_line :
      (limit : ℕ) (input : String) (st : S)
      → round rt is_utf8 complaint handle limit
          (readline (suc limit) input).0
          (readline (suc limit) input).1
          st
        ≡ answered limit input st
  unfolding round answer_line
  round-answer_line limit input st =
      elim (Bool-cases (leb (count (first_line input).0) (suc limit))) [
        | inl short ↦
            let whole = readline-first_line (suc limit) input (leb→le _ _ short) in
            elim (Bool-cases (ltb limit (count (first_line input).0))) [
              | inl over ↦ elim (Bool-cases (ends_line (first_line input).0)) [
                | inl ended ↦ rw (whole, over, ended) refl
                | inr unended ↦
                    rw (whole, over, unended)
                      (ap (λ x. (some too_long, st, x)) (skip_line-unended limit input unended))
              ]
              | inr fits ↦ rw (whole, fits) refl
            ]
        | inr long ↦
            let cut = readline-IsCut (suc limit) input (ground (arith, long)) in
            let over : ltb limit (count (readline (suc limit) input).0) ≡ true =
              ground (arith, cut.full) in
            let over_too : ltb limit (count (first_line input).0) ≡ true = ground (arith, long) in
            let rest = (readline (suc limit) input).1 in
            rw (over, cut.unended, over_too)
              (ap (λ x. (some too_long, st, x))
                (skip_line-first_line (suc (count rest)) limit rest (omega arith) ∙ cut.same_line))
      ]

  serve-step :
      (fuel limit : ℕ) (input : String) (st : S)
      → is_empty input ≡ false
      → serve rt is_utf8 complaint handle (suc fuel) limit input st ≡ (
          let answer = answer_line rt is_utf8 complaint handle limit (first_line input).0 st in
          let later = serve rt is_utf8 complaint handle fuel limit (first_line input).1 answer.1 in
          (emit answer.0 later.0, later.1))
  unfolding serve
  serve-step fuel limit input st h =
      rw (readline-filled limit input h, round-answer_line limit input st) refl

  -- With more fuel than characters, the loop has read the input to its end, line by line.
  pub serve-answer_lines :
      (fuel limit : ℕ) (input : String) (st : S)
      → count input < fuel
      → serve rt is_utf8 complaint handle fuel limit input st
        ≡ answer_lines rt is_utf8 complaint handle limit (lines_of input) st
  unfolding answer_lines
  serve-answer_lines zero limit input st h = absurd (omega (arith, h))
  serve-answer_lines (suc fuel) limit String.[] st h =
      unfold serve lines_of readline is_empty in refl
  serve-answer_lines (suc fuel) limit (String.◌∷◌ c s) st h =
      serve-step fuel limit (cons_char c s) st (unfold is_empty in refl)
      ∙ (let answer =
            answer_line rt is_utf8 complaint handle limit (first_line (cons_char c s)).0 st in
          ap (λ later. (emit answer.0 later.0, later.1))
            (serve-answer_lines fuel limit (first_line (cons_char c s)).1 answer.1
              (shorter (cons_char c s) fuel (unfold is_empty in refl) h)))
      ∙ sym (
          ap (λ lines. answer_lines rt is_utf8 complaint handle limit lines st)
            (lines_of-first_line c s))

  -- With a limit of at least 1,024 bytes, serve_stdio_bounded ends on every input, and its responses are
  -- those of the lines of the input in their order, each handled by itself: a line that is longer
  -- than the limit, however it is cut by the reads, has the one error response and reaches no
  -- handler, a blank line has none, and a line within the limit is decoded and handled.
  pub serve_stdio_bounded-answer_lines :
      (max_request_bytes : ℕ) (input : String) (st : S)
      → 1024 ≤ max_request_bytes
      → serve_stdio_bounded rt is_utf8 complaint handle max_request_bytes input st
        ≡ ok (answer_lines rt is_utf8 complaint handle max_request_bytes (lines_of input) st)
  unfolding serve_stdio_bounded
  serve_stdio_bounded-answer_lines max_request_bytes input st h =
      let enough : leb 1024 max_request_bytes ≡ true = ground (arith, h) in
      rw enough
        (ap ok (serve-answer_lines (suc (count input)) max_request_bytes input st (omega arith)))
