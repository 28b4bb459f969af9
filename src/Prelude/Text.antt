-- ===== src/Prelude/Text.antt =====
-- The parts of Python's `str` that the program uses, on ASCII texts. `String` is a list of
-- characters, by its own `[]` and `∷`.
use Prim.Native.Nat.{ℕ, zero, suc, ◌-◌}
use Prim.Native.Char.{Char, code}
use Prim.Native.String.{String, ◌++◌ as ◌<>◌, char_at, count}
use mathlib.Core.Bool.{Bool, true, false, ◌&&◌, ◌||◌}
use mathlib.Core.List.{List, [], ◌∷◌}
use gpthands.Prelude.Tests.{leb, ◌==◌, if◌then◌else◌}

abbrev pub cons_char : Char → String → String
cons_char c s = String.◌∷◌ c s

-- s.isspace() on one character
unfoldable pub is_space : Char → Bool
is_space c =
    code c == 32 || (leb 9 (code c) && leb (code c) 13) || (leb 28 (code c) && leb (code c) 31)

abbrev lower_alphabet : String
lower_alphabet = "abcdefghijklmnopqrstuvwxyz"

abbrev upper_alphabet : String
upper_alphabet = "ABCDEFGHIJKLMNOPQRSTUVWXYZ"

lower_char : Char → Char
lower_char c =
    if leb b'A' (code c) && leb (code c) b'Z' then char_at lower_alphabet (code c - 65) else c

upper_char : Char → Char
upper_char c =
    if leb b'a' (code c) && leb (code c) b'z' then char_at upper_alphabet (code c - 97) else c

unfoldable pub lower : String → String
unfolding lower_char
lower String.[] = ""
lower (String.◌∷◌ c s) = cons_char (lower_char c) (lower s)

unfoldable pub upper : String → String
unfolding upper_char
upper String.[] = ""
upper (String.◌∷◌ c s) = cons_char (upper_char c) (upper s)

unfoldable pub lstrip : String → String
unfolding is_space
lstrip String.[] = ""
lstrip (String.◌∷◌ c s) = let rest = lstrip s in if is_space c then rest else cons_char c s

unfoldable pub cons_trimmed : Char → String → String
unfolding is_space
cons_trimmed c String.[] = if is_space c then "" else cons_char c ""
cons_trimmed c (String.◌∷◌ d s) = cons_char c (cons_char d s)

unfoldable pub rstrip : String → String
unfolding cons_trimmed
rstrip String.[] = ""
rstrip (String.◌∷◌ c s) = cons_trimmed c (rstrip s)

unfoldable pub strip : String → String
unfolding lstrip rstrip
strip s = rstrip (lstrip s)

unfoldable pub is_empty : String → Bool
is_empty String.[] = true
is_empty (String.◌∷◌ c s) = false

-- all(test(ch) for ch in s)
unfoldable pub all_chars : (ℕ → Bool) → String → Bool
all_chars p String.[] = true
all_chars p (String.◌∷◌ c s) = p (code c) && all_chars p s

unfoldable pub has_prefix : String → String → Bool
has_prefix String.[] s = true
has_prefix (String.◌∷◌ c p) String.[] = false
has_prefix (String.◌∷◌ c p) (String.◌∷◌ d s) = code c == code d && has_prefix p s

-- part in s
unfoldable pub has_infix : String → String → Bool
unfolding has_prefix
has_infix part String.[] = has_prefix part ""
has_infix part (String.◌∷◌ c s) = has_prefix part (cons_char c s) || has_infix part s

rev_onto : String → String → String
rev_onto String.[] acc = acc
rev_onto (String.◌∷◌ c s) acc = rev_onto s (cons_char c acc)

unfoldable pub has_suffix : String → String → Bool
unfolding has_prefix rev_onto
has_suffix part s = has_prefix (rev_onto part "") (rev_onto s "")

-- s[:n] and s[n:]
unfoldable pub take_chars : ℕ → String → String
take_chars zero s = ""
take_chars (suc n) String.[] = ""
take_chars (suc n) (String.◌∷◌ c s) = cons_char c (take_chars n s)

unfoldable pub drop_chars : ℕ → String → String
drop_chars zero s = s
drop_chars (suc n) String.[] = ""
drop_chars (suc n) (String.◌∷◌ c s) = drop_chars n s

-- s.replace(old, new) for one character
unfoldable pub replace_char : ℕ → String → String → String
replace_char old new String.[] = ""
replace_char old new (String.◌∷◌ c s) =
    (if code c == old then new else cons_char c "") <> replace_char old new s

split_onto : ℕ → String → String → List String
split_onto sep cur String.[] = rev_onto cur "" ∷ []
split_onto sep cur (String.◌∷◌ c s) = elim (code c == sep) [
  | true ↦ rev_onto cur "" ∷ split_onto sep "" s
  | false ↦ split_onto sep (cons_char c cur) s
]

-- s.split(sep) for one character
unfoldable pub split : ℕ → String → List String
unfolding split_onto rev_onto
split sep s = split_onto sep "" s

-- sep.join(parts)
unfoldable pub join : String → List String → String
join sep [] = ""
join sep (part ∷ []) = part
join sep (part ∷ more ∷ parts) = part <> (sep <> join sep (more ∷ parts))

-- text.replace(old, new), past the characters of a match that are still to be left out
unfoldable pub replace_from : ℕ → String → String → String → String
replace_from skip old new String.[] = ""
replace_from (suc skip) old new (String.◌∷◌ c s) = replace_from skip old new s
replace_from zero old new (String.◌∷◌ c s) = elim (has_prefix old (cons_char c s)) [
  | true ↦ new <> replace_from (count old - 1) old new s
  | false ↦ cons_char c (replace_from zero old new s)
]
