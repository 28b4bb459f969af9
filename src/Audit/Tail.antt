-- ===== src/Audit/Tail.antt =====
-- What `_last_nonempty_line_locked` returns: the body of the last line that is not blank, where the
-- tail window holds it.
use mathlib.Core.List.{reverse, reverse-cons}
use Prim.Native.String.len
use text.Mathlib.TextPositions.{len-append}
use gpthands.Prelude.{
  ap, ℕ, ◌+◌, ◌-◌, ◌≤◌, String, Bool, false, Option, none, some, List, [], ◌∷◌, ◌++◌, ◌≡◌, refl,
  ◌∙◌, arith, ltb, len, ok,
}
use gpthands.Audit.Defs.{RawLine, raw, LogFile, raw_lines, concat, is_blank}
use gpthands.Audit.Append.{
  max_tail_record_bytes, tail_rows, non_blank, last_row, last_nonempty_line,
}
use gpthands.Audit.Chain.{after_line, last_body}

-- The number of bytes in lines.
abbrev pub total : List RawLine → ℕ
total [] = 0
total (l ∷ ls) = len (raw l) + total ls

-- Every line stands in the window, so nothing is cut.
tail_rows-eq_self : (budget : ℕ) (ls : List RawLine) → total ls ≤ budget → tail_rows budget ls ≡ ls
unfolding tail_rows
tail_rows-eq_self budget [] h = refl
tail_rows-eq_self budget (l ∷ ls) h =
    ground (arith, tail_rows-eq_self (budget - len (raw l)) ls (omega arith))

non_blank-append : (xs ys : List RawLine) → non_blank (xs ++ ys) ≡ non_blank xs ++ non_blank ys
unfolding non_blank
non_blank-append [] ys = refl
non_blank-append (x ∷ xs) ys = ground (arith, non_blank-append xs ys)

-- The body of the first line, or what stood before it.
abbrev first_body : Option String → List RawLine → Option String
first_body o [] = o
first_body o (l ∷ ls) = some l.body

first_body-append :
    (o : Option String) (xs ys : List RawLine)
    → first_body o (xs ++ ys) ≡ first_body (first_body o ys) xs
first_body-append o [] ys = refl
first_body-append o (x ∷ xs) ys = refl

-- Reading backwards, the last body that is not blank is the first one.
last_body-eq-first_body :
    (o : Option String) (ls : List RawLine) → last_body o ls ≡ first_body o (non_blank (reverse ls))
unfolding last_body non_blank
last_body-eq-first_body o [] = refl
last_body-eq-first_body o (l ∷ ls) =
    last_body-eq-first_body (after_line o l) ls
    ∙ rw (reverse-cons, non_blank-append, first_body-append)
        (ap (λ x. first_body x (non_blank (reverse ls))) (ground arith))

-- The tail window holds the last line and one more, or the whole file.
pub data FitsTail (f : LogFile) : Type 0 where
  whole : len (concat (raw_lines f)) ≤ max_tail_record_bytes → FitsTail f
  two_lines :
      (l m : RawLine) (ls : List RawLine)
      → reverse (raw_lines f) ≡ l ∷ m ∷ ls
      → is_blank l ≡ false
      → is_blank m ≡ false
      → len (raw l) + len (raw m) ≤ max_tail_record_bytes
      → FitsTail f

len-concat : (ls : List RawLine) → len (concat ls) ≡ total ls
unfolding concat
len-concat [] = len.nil
len-concat (l ∷ ls) = len-append (raw l) (concat ls) ∙ ap (λ n. len (raw l) + n) (len-concat ls)

total-append : (xs ys : List RawLine) → total (xs ++ ys) ≡ total xs + total ys
total-append [] ys = omega arith
total-append (x ∷ xs) ys = omega (arith, total-append xs ys)

total-reverse : (ls : List RawLine) → total (reverse ls) ≡ total ls
total-reverse [] = refl
total-reverse (l ∷ ls) = rw (reverse-cons, total-append) (omega (arith, total-reverse ls))

last_row-first_body : (ls : List RawLine) → last_row false ls ≡ ok (first_body none ls)
unfolding last_row
last_row-first_body [] = refl
last_row-first_body (l ∷ []) = refl
last_row-first_body (l ∷ m ∷ ls) = refl

last_row_two :
    (oversized : Bool) (budget : ℕ) (l m : RawLine) (ls : List RawLine)
    → is_blank l ≡ false
    → is_blank m ≡ false
    → len (raw l) + len (raw m) ≤ budget
    → last_row oversized (non_blank (tail_rows budget (l ∷ m ∷ ls))) ≡ ok (some l.body)
unfolding last_row non_blank tail_rows
last_row_two oversized budget l m ls bl bm h = ground arith

pub last_nonempty_line-FitsTail :
    (f : LogFile) → FitsTail f → last_nonempty_line f ≡ ok (last_body none (raw_lines f))
unfolding last_nonempty_line
last_nonempty_line-FitsTail f (whole h) =
    let fits : total (reverse (raw_lines f)) ≤ max_tail_record_bytes =
      omega (arith, total-reverse (raw_lines f), len-concat (raw_lines f)) in
    let small : ltb max_tail_record_bytes (len (concat (raw_lines f))) ≡ false = ground arith in
    rw (small, tail_rows-eq_self _ _ fits, last_body-eq-first_body) (last_row-first_body _)
last_nonempty_line-FitsTail f (two_lines l m ls e bl bm h) =
    rw (last_body-eq-first_body, e)
      (last_row_two _ max_tail_record_bytes l m ls bl bm h
        ∙ ap ok (unfold non_blank in (ground arith)))
