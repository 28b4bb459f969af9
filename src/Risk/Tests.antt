-- ===== src/Risk/Tests.antt =====
-- Commands and their levels.
use gpthands.Prelude.{
  ◌≤◌, [], ◌∷◌, ◌≡◌, refl, lower, split, join, has_suffix, has_prefix, take_chars, is_empty, elem,
  string_discrete,
}
use gpthands.Risk.{
  exec, network, destructive, rank, normalized_program, path_name, path_parts,
  command_requires_network, network_subcommands, classify_command, dangerous_arg_patterns,
}
use gpthands.Risk.Patterns.{search_pattern, search_from, match_here, at_end, nullable, derivative}
use gpthands.Risk.Laws.{classify_command-append}

programs :
    (normalized_program "/usr/bin/Python3.EXE" ≡ "python3") × (normalized_program "a/./git" ≡ "git")
unfolding normalized_program path_name path_parts split lower has_suffix has_prefix take_chars
    string_discrete is_empty
programs = (refl, refl)

levels :
    (classify_command ("git" ∷ "push" ∷ "--force-with-lease" ∷ []) ≡ destructive)
    × (classify_command ("git" ∷ "push" ∷ "--forced" ∷ []) ≡ network)
    × (classify_command ("git" ∷ "reset" ∷ "--hard" ∷ []) ≡ destructive)
    × (classify_command ("git" ∷ "clean" ∷ "-xdf" ∷ []) ≡ destructive)
    × (classify_command ("make" ∷ "all" ∷ []) ≡ exec)
unfolding classify_command command_requires_network network_subcommands normalized_program path_name
    path_parts split lower has_suffix has_prefix take_chars string_discrete is_empty elem join
    dangerous_arg_patterns search_pattern search_from match_here at_end nullable derivative
levels = (refl, refl, refl, refl, refl)

classify_command-append_example :
    rank (classify_command ("git" ∷ "push" ∷ []))
    ≤ rank (classify_command ("git" ∷ "push" ∷ "-f" ∷ []))
classify_command-append_example = classify_command-append ("git" ∷ "push" ∷ []) ("-f" ∷ [])
