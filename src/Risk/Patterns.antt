-- ===== src/Risk/Patterns.antt =====
-- The regular expressions of src/gpthands/risk.py: `re.search` with a pattern between word boundaries
-- written `(^|\s)` and `($|\s)`, by derivatives.
use Prim.Native.Char.{code}
use gpthands.Prelude.{ℕ, String, Bool, true, false, ◌&&◌, ◌||◌, ◌==◌, leb, if◌then◌else◌, cons_char}

pub data Regex : Type 0 where
  never empty : Regex
  one : (ℕ → Bool) → Regex
  seq alt : Regex → Regex → Regex
  star : Regex → Regex

-- The pattern matches the empty text.
unfoldable pub nullable : Regex → Bool
nullable never = false
nullable empty = true
nullable (one p) = false
nullable (seq r t) = nullable r && nullable t
nullable (alt r t) = nullable r || nullable t
nullable (star r) = true

-- What is left of the pattern after one character.
unfoldable pub derivative : ℕ → Regex → Regex
unfolding nullable
derivative c never = never
derivative c empty = never
derivative c (one p) = if p c then empty else never
derivative c (seq r t) =
    let first = seq (derivative c r) t in
    let second = derivative c t in if nullable r then alt first second else first
derivative c (alt r t) = alt (derivative c r) (derivative c t)
derivative c (star r) = seq (derivative c r) (star r)

-- \s
abbrev pub space : ℕ → Bool
space c = c == 32 || (leb 9 c && leb c 13) || (leb 28 c && leb c 31)

-- A text as a pattern.
abbrev pub literal : String → Regex
literal String.[] = empty
literal (String.◌∷◌ c s) = seq (one (λ d. d == code c)) (literal s)

abbrev pub optional : Regex → Regex
optional r = alt empty r

abbrev pub plus : Regex → Regex
plus r = seq r (star r)

-- A pattern, and whether `($|\s)` closes it. `(^|\s)` opens every pattern of the program.
pub record Pattern : Type 0 where
  pub body : Regex
  pub closed : Bool

unfoldable pub at_end : Bool → String → Bool
at_end false s = true
at_end true String.[] = true
at_end true (String.◌∷◌ c s) = space (code c)

-- The pattern matches a prefix of the text.
unfoldable pub match_here : Regex → Bool → String → Bool
match_here r closed String.[] = nullable r
match_here r closed (String.◌∷◌ c s) =
    (nullable r && at_end closed (cons_char c s)) || match_here (derivative (code c) r) closed s

-- The pattern matches at a start or behind a space; the flag says that the text stands there.
unfoldable pub search_from : Bool → Pattern → String → Bool
search_from boundary p String.[] = boundary && match_here p.body p.closed ""
search_from boundary p (String.◌∷◌ c s) =
    (boundary && match_here p.body p.closed (cons_char c s)) || search_from (space (code c)) p s

-- pattern.search(text) is not None
unfoldable pub search_pattern : Pattern → String → Bool
unfolding search_from
search_pattern p s = search_from true p s

-- pattern.fullmatch(text) is not None
unfoldable pub full_match : Regex → String → Bool
unfolding nullable derivative
full_match r String.[] = nullable r
full_match r (String.◌∷◌ c s) = full_match (derivative (code c) r) s
