-- ===== src/Process/Output.antt =====
-- The kept output is the first bytes of all that the child wrote.
use Prim.Native.String.append
use Prim.Native.String.count
use package.text.Mathlib.TextLemmas.{append_assoc, append-nil, nil-append}
use mathlib.Core.Path.{ap₂}
use gpthands.Prelude.{
  ℕ, zero, suc, ◌+◌, ◌-◌, ◌≤◌, String, ◌<>◌, Bool, true, false, List, [], ◌∷◌, ◌≡◌, refl, sym, ap,
  ◌∙◌, arith, ltb, if◌then◌else◌, is_empty, take_chars, count, cons_char, min, Bool-cases, inl, inr,
  ok,
}
use gpthands.Process.Defs.{
  Child, BoundedProcessResult, marker, no_words, run_bounded_process, Captured, no_output,
  drain_stdout,
}

take_chars-empty : (n : ℕ) → take_chars n "" ≡ ""
unfolding take_chars
take_chars-empty zero = refl
take_chars-empty (suc n) = refl

count-take_chars : (n : ℕ) (s : String) → count (take_chars n s) ≡ min n (count s)
unfolding take_chars
count-take_chars zero s = ground arith
count-take_chars (suc n) String.[] = ground arith
count-take_chars (suc n) (String.◌∷◌ c s) =
    ground (arith, count.cons c (take_chars n s), count.cons c s, count-take_chars n s)

minus_none : (n : ℕ) → suc n ≡ suc n - count ""
minus_none n = omega arith

take_chars-append :
    (n : ℕ) (s t : String)
    → take_chars n (s <> t) ≡ take_chars n s <> take_chars (n - count (take_chars n s)) t
unfolding take_chars
take_chars-append zero s t = sym (nil-append "")
take_chars-append (suc n) String.[] t =
    ap (take_chars (suc n)) (nil-append t)
    ∙ sym (nil-append _)
    ∙ ap (λ k. "" <> take_chars k t) (minus_none n)
take_chars-append (suc n) (String.◌∷◌ c s) t =
    ap (take_chars (suc n)) (append.cons c s t)
    ∙ ap (cons_char c) (take_chars-append n s t)
    ∙ sym (append.cons c (take_chars n s) _)
    ∙ ap (λ k. cons_char c (take_chars n s) <> take_chars k t)
        (omega (arith, count.cons c (take_chars n s)))

count-joined : (s t : String) → count (s <> t) ≡ count s + count t
count-joined String.[] t = ap count (nil-append t) ∙ omega arith
count-joined (String.◌∷◌ c s) t =
    ap count (append.cons c s t)
    ∙ count.cons c (s <> t)
    ∙ ap suc (count-joined s t)
    ∙ omega (arith, count.cons c s)

-- All that the pipe yields.
unfoldable pub all_output : List String → String
all_output [] = ""
all_output (chunk ∷ chunks) =
    let rest = all_output chunks in if is_empty chunk then "" else chunk <> rest

-- What is to be kept of a text.
abbrev pub first_bytes : ℕ → String → Captured
first_bytes limit t = record { kept = take_chars limit t; truncated = ltb limit (count t) }

more_bytes :
    (limit : ℕ) (t chunk : String)
    → is_empty chunk ≡ false
    → ◌≡◌ {A = Captured}
        (record {
          kept = take_chars limit t <> take_chars (limit - count (take_chars limit t)) chunk;
          truncated =
              if ltb (limit - count (take_chars limit t)) (count chunk)
              then true
              else ltb limit (count t);
        })
        (first_bytes limit (t <> chunk))
more_bytes limit t chunk full =
    ap₂ (λ k b. record { kept = k; truncated = b }) (sym (take_chars-append limit t chunk))
      (ground (arith, count-take_chars limit t, count-joined t chunk))

no_bytes : (limit : ℕ) → first_bytes limit "" ≡ no_output
no_bytes limit =
    ap₂ (λ k b. record { kept = k; truncated = b }) (take_chars-empty limit) (ground arith)

drain_stdout-from :
    (limit : ℕ) (t : String) (chunks : List String)
    → drain_stdout limit (first_bytes limit t) chunks ≡ first_bytes limit (t <> all_output chunks)
unfolding drain_stdout all_output
drain_stdout-from limit t [] = ap (first_bytes limit) (sym (append-nil t))
drain_stdout-from limit t (chunk ∷ chunks) = elim (Bool-cases (is_empty chunk)) [
  | inl over ↦ rw over (ap (first_bytes limit) (sym (append-nil t)))
  | inr full ↦ rw full (
      ap (λ c. drain_stdout limit c chunks) (more_bytes limit t chunk full)
      ∙ drain_stdout-from limit (t <> chunk) chunks
      ∙ ap (first_bytes limit) (append_assoc t chunk (all_output chunks)))
]

-- Of all that the child writes, in chunks of whatever size, exactly the first max_output_bytes bytes
-- are kept, and the output counts as truncated exactly where there were more.
pub drain_stdout-all_output :
    (limit : ℕ) (chunks : List String)
    → drain_stdout limit no_output chunks ≡ first_bytes limit (all_output chunks)
drain_stdout-all_output limit chunks =
    ap (λ c. drain_stdout limit c chunks) (sym (no_bytes limit))
    ∙ drain_stdout-from limit "" chunks
    ∙ ap (first_bytes limit) (nil-append (all_output chunks))

count-marked : (b : Bool) (s : String) → count (s <> (if b then marker else "")) ≤ count s + 38
count-marked true s = omega (arith, count-joined s marker)
count-marked false s = omega (arith, count-joined s "")

-- A run that returns has words to run, limits of at least 1 and a child that ended in time, and returns
-- the child's code and the first max_output_bytes bytes of its output, with the marker after them
-- exactly where there were more; so the output has at most max_output_bytes and 38 bytes.
pub run_bounded_process_output :
    (argv : List String) (timeout limit : ℕ) (child : Child) (r : BoundedProcessResult)
    → run_bounded_process argv timeout limit child ≡ ok r
    → (no_words argv ≡ false)
      × (1 ≤ timeout)
      × (1 ≤ limit)
      × (child.in_time ≡ true)
      × (r.returncode ≡ child.returncode)
      × (r.stdout
          ≡ take_chars limit (all_output child.chunks)
            <> (if ltb limit (count (all_output child.chunks)) then marker else ""))
      × (count r.stdout ≤ limit + 38)
unfolding run_bounded_process
run_bounded_process_output argv timeout limit child r h =
    let whole = all_output child.chunks in
    let same = drain_stdout-all_output limit child.chunks in
    let out : r.stdout
        ≡ take_chars limit whole <> (if ltb limit (count whole) then marker else "") =
      ground (arith, h) ∙ ap (λ c. c.kept <> (if c.truncated then marker else "")) same in
    (
      ground arith,
      ground arith,
      ground arith,
      ground arith,
      ground arith,
      out,
      rw out (
          omega (
            arith,
            count-marked (ltb limit (count whole)) (take_chars limit whole),
            count-take_chars limit whole,
          )),
    )
