-- ===== src/Risk/Laws.antt =====
-- Risk levels by name, and the floor that the classification puts under each command.
use Prim.Native.Char.{code}
use Prim.Native.String.append
use mathlib.Core.List.{append-nil}
use text.Mathlib.TextLemmas.{append_assoc}
use gpthands.Prelude.{
  ◌∙◌, ◌++◌, cons_char, String, ◌<>◌, ◌≤◌, Bool, true, false, List, [], ◌∷◌, ◌≡◌, refl, arith, ok,
  elem, any, lower, upper, strip, join, string_discrete,
}
use gpthands.Risk.{
  RiskLevel, read, write, exec, network, destructive, rank, name, parse, normalized_program,
  command_requires_network, classify_command, network_subcommands, dangerous_arg_patterns,
}
use gpthands.Risk.Patterns.{
  Regex, Pattern, space, derivative, at_end, match_here, search_from, search_pattern,
}

-- A level is read back from its name, in upper or lower case and with blanks round it.
pub parse-name :
    (r : RiskLevel)
    → (parse (name r) ≡ ok r)
      × (parse (lower (name r)) ≡ ok r)
      × (parse (" " <> (name r <> "\n")) ≡ ok r)
unfolding parse string_discrete lower upper strip
parse-name read = (refl, refl, refl)
parse-name write = (refl, refl, refl)
parse-name exec = (refl, refl, refl)
parse-name network = (refl, refl, refl)
parse-name destructive = (refl, refl, refl)

-- No command ranks below EXEC, and one that asks for the network not below NETWORK.
pub rank-classify_command :
    (argv : List String)
    → (30 ≤ rank (classify_command argv))
      × (command_requires_network argv ≡ true → 40 ≤ rank (classify_command argv))
unfolding classify_command
rank-classify_command [] = unfold command_requires_network in (ground arith)
rank-classify_command (program ∷ args) = ground arith

-- A match stays a match when words are added at the end.
match_here-append :
    (r : Regex) (closed : Bool) (s t : String)
    → match_here r closed s ≡ true
    → match_here r closed (s <> (" " <> t)) ≡ true
unfolding match_here at_end
match_here-append r true String.[] t h = rw (append.nil, append.cons) (ground arith)
match_here-append r false String.[] t h = rw (append.nil, append.cons) (ground arith)
match_here-append r true (String.◌∷◌ c s) t h =
    rw append.cons (ground (arith, match_here-append (derivative (code c) r) true s t))
match_here-append r false (String.◌∷◌ c s) t h =
    rw append.cons (ground (arith, match_here-append (derivative (code c) r) false s t))

add_words : (t : String) → "" <> (" " <> t) ≡ cons_char " " ("" <> t)
add_words t = append.nil (" " <> t) ∙ append.cons " " "" t

search_from-append :
    (boundary : Bool) (p : Pattern) (s t : String)
    → search_from boundary p s ≡ true
    → search_from boundary p (s <> (" " <> t)) ≡ true
unfolding search_from
search_from-append boundary p String.[] t h =
    ground (arith, match_here-append p.body p.closed "" t, add_words t)
search_from-append boundary p (String.◌∷◌ c s) t h = rw append.cons (
    ground (
      arith,
      search_from-append (space (code c)) p s t,
      match_here-append p.body p.closed (cons_char c s) t,
      append.cons c s (" " <> t),
    ))

any_search-append :
    (ps : List Pattern) (s t : String)
    → any (λ p. search_pattern p s) ps ≡ true
    → any (λ p. search_pattern p (s <> (" " <> t))) ps ≡ true
unfolding search_pattern
any_search-append [] s t h = cc
any_search-append (p ∷ ps) s t h =
    ground (arith, search_from-append true p s t, any_search-append ps s t)

lower-append : (s t : String) → lower (s <> t) ≡ lower s <> lower t
unfolding lower
lower-append String.[] t = rw (append.nil, append.nil)
lower-append (String.◌∷◌ c s) t = rw (append.cons, append.cons, lower, lower-append s t)

join-append :
    (sep part more : String) (parts others : List String)
    → join sep (part ∷ (parts ++ more ∷ others))
      ≡ join sep (part ∷ parts) <> (sep <> join sep (more ∷ others))
unfolding join
join-append sep part more [] others = refl
join-append sep part more (next ∷ parts) others =
    rw (join-append sep next more parts others) (rw (append_assoc, append_assoc))

any-append {ℓ} :
    {A : Type ℓ} (p : A → Bool) (xs ys : List A) → any p xs ≡ true → any p (xs ++ ys) ≡ true
any-append p [] ys h = cc
any-append p (x ∷ xs) ys h = ground (arith, any-append p xs ys)

command_requires_network-append :
    (program : String) (args more : List String)
    → command_requires_network (program ∷ args) ≡ true
    → command_requires_network (program ∷ (args ++ more)) ≡ true
unfolding command_requires_network
command_requires_network-append program args more h = ground (
  arith,
  any-append (λ arg. elem (lower arg) (network_subcommands (normalized_program program))) args more,
)

lower-join :
    (program next : String) (args more : List String)
    → lower (join " " (program ∷ (args ++ next ∷ more)))
      ≡ lower (join " " (program ∷ args)) <> (" " <> lower (join " " (next ∷ more)))
lower-join program next args more =
    rw (join-append " " program next args more, lower-append, lower-append " ")
      (unfold lower in refl)

-- Adding arguments to a command never lowers its level.
pub classify_command-append :
    (argv more : List String)
    → rank (classify_command argv) ≤ rank (classify_command (argv ++ more))
unfolding classify_command
classify_command-append [] more = (rank-classify_command more).0
classify_command-append (program ∷ args) [] = rw append-nil (omega arith)
classify_command-append (program ∷ args) (next ∷ more) = ground (
  arith,
  lower-join program next args more,
  any_search-append dangerous_arg_patterns (lower (join " " (program ∷ args)))
      (lower (join " " (next ∷ more))),
  command_requires_network-append program args (next ∷ more),
)
