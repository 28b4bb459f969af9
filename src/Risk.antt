-- ===== src/Risk.antt =====
-- src/gpthands/risk.py: risk levels, and the classification of a command by its words.
pub mod Patterns
pub mod Laws
mod Tests
use Prim.Native.Char.{code}
use gpthands.Prelude.{
  ℕ, String, ◌<>◌, Bool, true, false, not, ◌&&◌, ◌||◌, Option, none, some, List, [], ◌∷◌, ◌==◌, leb,
  ltb, if◌then◌else◌, elem, any, has_suffix, is_empty, lower, upper, strip, split, join, count,
  take_chars, ◌-◌, ◌=?◌, ok, raise, value_error, map,
}
use gpthands.Prelude.Errors.{Result}
use Patterns.{Pattern, Regex, one, seq, alt, star, literal, optional, plus, space, search_pattern}

pub data RiskLevel : Type 0 where
  read write exec network destructive : RiskLevel

-- The value of the IntEnum member.
abbrev pub rank : RiskLevel → ℕ
rank read = 10
rank write = 20
rank exec = 30
rank network = 40
rank destructive = 50

-- The member's name.
abbrev pub name : RiskLevel → String
name read = "READ"
name write = "WRITE"
name exec = "EXEC"
name network = "NETWORK"
name destructive = "DESTRUCTIVE"

-- RiskLevel.parse
unfoldable pub parse : String → Result RiskLevel
parse value =
    let word = upper (strip value) in
    if word =? "READ"
    then ok read
    else if word =? "WRITE"
    then ok write
    else if word =? "EXEC"
    then ok exec
    else if word =? "NETWORK"
    then ok network
    else if word =? "DESTRUCTIVE"
    then ok destructive
    else raise value_error ("unknown risk level: " <> value)

abbrev word : Regex → Pattern
word r = record { body = r; closed = true }

-- -[^\s]*x
abbrev flag_with : String → Regex
flag_with letter = seq (literal "-") (seq (star (one (λ c. not (space c)))) (literal letter))

-- _DANGEROUS_ARG_PATTERNS
unfoldable pub dangerous_arg_patterns : List Pattern
dangerous_arg_patterns =
    word (literal "--privileged")
    ∷ word (seq (literal "--force") (optional (literal "-with-lease")))
    ∷ word (literal "-f")
    ∷ word (seq (literal "reset") (seq (plus (one space)) (literal "--hard")))
    ∷ record {
      body = seq (literal "clean") (seq (plus (one space)) (flag_with "f"));
      closed = false;
    }
    ∷ record { body = seq (literal "rm") (seq (plus (one space)) (flag_with "r")); closed = false }
    ∷ []

-- _ARBITRARY_CODE_PROGRAMS
abbrev pub arbitrary_code_programs : List String
arbitrary_code_programs =
    "bash" ∷ "sh" ∷ "zsh" ∷ "fish" ∷ "python" ∷ "python3" ∷ "node" ∷ "ruby" ∷ "perl" ∷ "php"
    ∷ "pwsh" ∷ "powershell" ∷ "cmd" ∷ "wscript" ∷ "cscript" ∷ "mshta" ∷ []

-- _NETWORK_PROGRAMS
abbrev pub network_programs : List String
network_programs =
    "curl" ∷ "wget" ∷ "nc" ∷ "netcat" ∷ "ssh" ∷ "scp" ∷ "sftp" ∷ "ftp" ∷ "telnet" ∷ "gh" ∷ []

-- _NETWORK_SUBCOMMANDS.get(program, set())
unfoldable pub network_subcommands : String → List String
network_subcommands program =
    if program =? "git"
    then "clone" ∷ "fetch" ∷ "pull" ∷ "push" ∷ "ls-remote" ∷ []
    else if program =? "npm"
    then "install" ∷ "i" ∷ "update" ∷ "audit" ∷ "publish" ∷ "login" ∷ "whoami" ∷ []
    else if program =? "pnpm"
    then "install" ∷ "add" ∷ "update" ∷ "publish" ∷ "audit" ∷ []
    else if program =? "yarn"
    then "install" ∷ "add" ∷ "upgrade" ∷ "publish" ∷ "npm" ∷ []
    else if program =? "pip" || program =? "pip3"
    then "install" ∷ "download" ∷ "index" ∷ []
    else if program =? "cargo"
    then "fetch" ∷ "install" ∷ "publish" ∷ "search" ∷ "login" ∷ []
    else if program =? "go"
    then "get" ∷ "install" ∷ []
    else []

-- _EXECUTABLE_SUFFIXES
abbrev pub executable_suffixes : List String
executable_suffixes = ".exe" ∷ ".cmd" ∷ ".bat" ∷ ".com" ∷ []

-- The parts of a POSIX path, without the root; empty parts and "." are dropped.
path_parts_from : List String → List String
path_parts_from [] = []
path_parts_from (part ∷ parts) =
    let rest = path_parts_from parts in if is_empty part || part =? "." then rest else part ∷ rest

unfoldable pub path_parts : String → List String
unfolding path_parts_from
path_parts path = path_parts_from (split b'/' path)

unfoldable pub last_or_empty : List String → String
last_or_empty [] = ""
last_or_empty (part ∷ []) = part
last_or_empty (part ∷ more ∷ parts) = last_or_empty (more ∷ parts)

-- Path(value).name
unfoldable pub path_name : String → String
unfolding last_or_empty
path_name path = last_or_empty (path_parts path)

-- The loop over the suffixes.
strip_suffix : String → List String → String
strip_suffix program [] = program
strip_suffix program (suffix ∷ suffixes) =
    let rest = strip_suffix program suffixes in
    if has_suffix suffix program && ltb (count suffix) (count program)
    then take_chars (count program - count suffix) program
    else rest

unfoldable pub normalized_program : String → String
unfolding strip_suffix
normalized_program value = strip_suffix (lower (path_name value)) executable_suffixes

unfoldable pub command_requires_network : List String → Bool
command_requires_network [] = false
command_requires_network (program ∷ args) =
    elem (normalized_program program) network_programs
    || any (λ arg. elem (lower arg) (network_subcommands (normalized_program program))) args

unfoldable pub classify_command : List String → RiskLevel
classify_command [] = exec
classify_command (program ∷ args) =
    let joined = lower (join " " (program ∷ args)) in
    if elem (normalized_program program) arbitrary_code_programs
    then destructive
    else if any (λ pattern. search_pattern pattern joined) dangerous_arg_patterns
    then destructive
    else if command_requires_network (program ∷ args)
    then network
    else exec
