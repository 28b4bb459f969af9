-- ===== src/Sandbox/Bubblewrap.antt =====
-- The arguments of bubblewrap in src/gpthands/sandbox.py.
use Prim.Native.String.append
use gpthands.Prelude.{
  String, Bool, true, false, ◌||◌, List, [], ◌∷◌, ◌++◌, ◌=?◌, ◌≡◌, refl, ap, ◌∙◌, arith,
  if◌then◌else◌, elem, has_prefix, Bool-cases, inl, inr, string_discrete,
}
use gpthands.Policy.Defs.{FilePath}
use gpthands.Policy.Paths.{path_text}
use gpthands.Sandbox.Defs.{
  Request, system_binds, system_paths, bind_flag, bwrap_options, linux_bwrap,
}

elem-append : (s : String) (xs ys : List String) → elem s (xs ++ ys) ≡ (elem s xs || elem s ys)
unfolding elem
elem-append s [] ys = refl
elem-append s (x ∷ xs) ys = ground (arith, elem-append s xs ys)

elem-system_binds :
    (s : String) (exists : String → Bool) (paths : List String)
    → (s =? "--ro-bind") ≡ false
    → elem s paths ≡ false
    → elem s (system_binds exists paths) ≡ false
unfolding elem system_binds
elem-system_binds s exists [] h k = refl
elem-system_binds s exists (path ∷ paths) h k = ground (arith, elem-system_binds s exists paths h)

-- What stands before and after the first separator.
unfoldable pub until_separator : List String → List String
until_separator [] = []
until_separator (word ∷ words) =
    let rest = until_separator words in if "--" =? word then [] else word ∷ rest

unfoldable pub after_separator : List String → List String
after_separator [] = []
after_separator (word ∷ words) =
    let rest = after_separator words in if "--" =? word then words else rest

separator-append :
    (xs ys : List String)
    → elem "--" xs ≡ false
    → (until_separator (xs ++ "--" ∷ ys) ≡ xs) × (after_separator (xs ++ "--" ∷ ys) ≡ ys)
unfolding until_separator after_separator elem
separator-append [] ys h = unfold string_discrete in (refl, refl)
separator-append (x ∷ xs) ys h =
    let (before, after) = separator-append xs ys (ground arith) in
    (ground (arith, before), ground (arith, after))

-- A word that starts with a slash is none that does not.
slash-apart : (s t : String) → has_prefix "/" s ≡ false → has_prefix "/" t ≡ true → (s =? t) ≡ false
slash-apart s t h k = elim (Bool-cases (s =? t)) [
  | inl same ↦ let e : s ≡ t = ground arith in absurd (ground (arith, ap (has_prefix "/") e))
  | inr differ ↦ differ
]

slash-path_text : (path : FilePath) → has_prefix "/" (path_text path) ≡ true
unfolding has_prefix path_text
slash-path_text path = rw (append.cons) refl

abbrev first_words : List String
first_words = "--die-with-parent" ∷ "--new-session" ∷ "--unshare-all" ∷ []

abbrev middle_words : List String
middle_words =
    "--dev" ∷ "/dev" ∷ "--proc" ∷ "/proc" ∷ "--tmpfs" ∷ "/tmp" ∷ "--dir" ∷ "/tmp/gpthands-home"
    ∷ "--setenv" ∷ "HOME" ∷ "/tmp/gpthands-home" ∷ "--setenv" ∷ "TMPDIR" ∷ "/tmp" ∷ []

-- What a word of the options that starts with no slash can be.
abbrev among : String → Bool → Bool → Bool
among s allow_network allow_write =
    elem s first_words
    || elem s (if allow_network then "--share-net" ∷ [] else [])
    || elem s middle_words
    || s =? bind_flag allow_write
    || s =? "--chdir"

among-separator : (network write : Bool) → among "--" network write ≡ false
unfolding elem string_discrete bind_flag
among-separator true true = refl
among-separator true false = refl
among-separator false true = refl
among-separator false false = refl

among-share_net : (network write : Bool) → among "--share-net" network write ≡ network
unfolding elem string_discrete bind_flag
among-share_net true true = refl
among-share_net true false = refl
among-share_net false true = refl
among-share_net false false = refl

among-bind : (network write : Bool) → among "--bind" network write ≡ write
unfolding elem string_discrete bind_flag
among-bind true true = refl
among-bind true false = refl
among-bind false true = refl
among-bind false false = refl

among-unshare_all : (network write : Bool) → among "--unshare-all" network write ≡ true
unfolding elem string_discrete
among-unshare_all network write = refl

IsPlain : String → Type 0
IsPlain s =
    (has_prefix "/" s ≡ false) × ((s =? "--ro-bind") ≡ false) × (elem s system_paths ≡ false)

IsPlain-separator : IsPlain "--"
unfolding IsPlain has_prefix elem string_discrete
IsPlain-separator = (refl, refl, refl)

IsPlain-share_net : IsPlain "--share-net"
unfolding IsPlain has_prefix elem string_discrete
IsPlain-share_net = (refl, refl, refl)

IsPlain-bind : IsPlain "--bind"
unfolding IsPlain has_prefix elem string_discrete
IsPlain-bind = (refl, refl, refl)

IsPlain-unshare_all : IsPlain "--unshare-all"
unfolding IsPlain has_prefix elem string_discrete
IsPlain-unshare_all = (refl, refl, refl)

module _ (exists : String → Bool) (bwrap : String) (r : Request)
    (absolute : has_prefix "/" bwrap ≡ true) where
  elem-bwrap_options :
      (s : String)
      → IsPlain s
      → elem s (bwrap_options exists bwrap r) ≡ among s r.allow_network r.allow_write
  unfolding IsPlain bwrap_options elem
  elem-bwrap_options s (plain, other, system) = ground (
    arith,
    slash-apart s bwrap plain absolute,
    slash-apart s (path_text r.workspace) plain (slash-path_text r.workspace),
    slash-apart s (path_text r.cwd) plain (slash-path_text r.cwd),
    elem-append s (if r.allow_network then "--share-net" ∷ [] else []) (
        system_binds exists system_paths
        ++ middle_words
        ++ (bind_flag r.allow_write
            ∷ path_text r.workspace
            ∷ path_text r.workspace
            ∷ "--chdir"
            ∷ path_text r.cwd
            ∷ [])),
    elem-append s (system_binds exists system_paths) (
        middle_words
        ++ (bind_flag r.allow_write
            ∷ path_text r.workspace
            ∷ path_text r.workspace
            ∷ "--chdir"
            ∷ path_text r.cwd
            ∷ [])),
    elem-system_binds s exists system_paths other system,
  )

  no_separator : elem "--" (bwrap_options exists bwrap r) ≡ false
  no_separator =
      elem-bwrap_options "--" IsPlain-separator ∙ among-separator r.allow_network r.allow_write

  -- The words of _linux_bwrap after the separator are the command, and those before it share the network
  -- exactly where the request allows it, bind a folder for writing exactly where it allows that, and
  -- unshare everything else. The program bwrap is given by an absolute path.
  pub linux_bwrap_options :
      (after_separator (linux_bwrap exists bwrap r) ≡ r.command)
      × (elem "--share-net" (until_separator (linux_bwrap exists bwrap r)) ≡ r.allow_network)
      × (elem "--bind" (until_separator (linux_bwrap exists bwrap r)) ≡ r.allow_write)
      × (elem "--unshare-all" (until_separator (linux_bwrap exists bwrap r)) ≡ true)
  unfolding linux_bwrap
  linux_bwrap_options =
      let (before, after) =
        separator-append (bwrap_options exists bwrap r) r.command no_separator in
      (
        after,
        ap (elem "--share-net") before
            ∙ elem-bwrap_options "--share-net" IsPlain-share_net
            ∙ among-share_net r.allow_network r.allow_write,
        ap (elem "--bind") before
            ∙ elem-bwrap_options "--bind" IsPlain-bind
            ∙ among-bind r.allow_network r.allow_write,
        ap (elem "--unshare-all") before
            ∙ elem-bwrap_options "--unshare-all" IsPlain-unshare_all
            ∙ among-unshare_all r.allow_network r.allow_write,
      )
