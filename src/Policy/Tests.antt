-- ===== src/Policy/Tests.antt =====
-- One policy file, loaded and asked.
use gpthands.Prelude.{
  true, false, none, some, [], ◌∷◌, ◌++◌, ◌≡◌, ◌↔◌, refl, ok, is_empty, elem, strip, upper,
  string_discrete, replace_char, has_prefix, has_infix, has_suffix, lower, split, join, is_empty,
}
use gpthands.Json.{pos, int, bool, text, arr, obj, nil, cons, Fields, end, field, get, put, pop}
use gpthands.Time.{before, later_by, seconds}
use gpthands.Risk.{
  path_parts, path_name, last_or_empty, parse, command_requires_network, classify_command,
  normalized_program, network_subcommands,
}
use gpthands.Policy.Defs.{Policy, live, allow_process, allow_network_commands}
use gpthands.Policy.Paths.{
  Resolver, resolve_path, inside, file_name, suffix, suffix_of, path_text, check_protected_path,
  check_secret_path,
}
use gpthands.Policy.Load.{
  FromIso, Site, keys, schema_version, supported, rename_network, migrate_policy_data, read_policy,
  check_file, load, build, allowed_value, texts, parse_expiry, check_lease, too_long,
  approval_level, bool_value, int_value, in_range,
}
use gpthands.Policy.Commands.{validate_command, check_words, IsAccepted, validate_command_iff}
use gpthands.Policy.Bounds.{IsBounded, load-IsBounded}
use gpthands.Policy.Confinement.{IsOpen, resolve_path_iff}
use gpthands.Policy.Migration.{default_policy}

abbrev no_iso : FromIso
no_iso t = none

-- A version 1 policy that grants processes and the network up to second 1000.
abbrev raw_policy : Fields
raw_policy = field "schema_version" (int (pos 1)) (
    field "allow_network" (bool true) (
      field "allow_process" (bool true) (
        field "process_lease_until" (int (pos 1000)) (
          field "network_lease_until" (int (pos 1000))
            (field "allowed_commands" (arr (cons (text "git") nil)) end)))))

abbrev migrated_policy : Fields
migrated_policy = field "schema_version" (int (pos 3)) (
    field "allow_process" (bool true) (
      field "process_lease_until" (int (pos 1000)) (
        field "network_lease_until" (int (pos 1000)) (
          field "allowed_commands" (arr (cons (text "git") nil))
            (field "allow_network_commands" (bool true) end)))))

abbrev site : Site
site = record {
  posix = true;
  root = "home" ∷ "work" ∷ [];
  root_is_dir = true;
  symlink = false;
  path = "home" ∷ ".config" ∷ "policy.json" ∷ [];
  file = some (record {
    regular = true;
    private = true;
    owned = true;
    parent_private = true;
    content = some (obj raw_policy);
  });
}

abbrev loaded_policy : Policy
loaded_policy = record (default_policy site.root site.path) {
  process_enabled = true;
  network_enabled = true;
  allowed_commands = "git" ∷ [];
  process_lease_until = some (pos 1000000000);
  network_lease_until = some (pos 1000000000);
}

migrated : migrate_policy_data raw_policy ≡ ok migrated_policy
unfolding migrate_policy_data schema_version get string_discrete supported rename_network put pop
    keys elem
migrated = refl

loaded : load no_iso (pos 900000000) site ≡ ok loaded_policy
unfolding load inside string_discrete read_policy check_file migrate_policy_data schema_version get
    supported rename_network put pop keys elem build allowed_value texts parse_expiry seconds
    check_lease too_long before later_by approval_level parse upper strip bool_value int_value
    in_range is_empty
loaded = refl

load-IsBounded_example :
    IsBounded (pos 900000000) loaded_policy
    × (inside loaded_policy.workspace loaded_policy.policy_path ≡ false)
    × (site.symlink ≡ false)
load-IsBounded_example = load-IsBounded no_iso (pos 900000000) site loaded_policy loaded

late : before (pos 90000000000) (later_by (pos 900000000) 86401000000) ≡ false
unfolding before later_by
late = refl

outside : inside site.root site.path ≡ false
unfolding inside string_discrete
outside = refl

-- A resolver without symbolic links, for paths without "..".
abbrev lexical : Resolver
lexical must_exist path = ok path

resolve_path_iff_example :
    (resolve_path lexical loaded_policy "src/main.py" true
      ≡ ok ("home" ∷ "work" ∷ "src" ∷ "main.py" ∷ []))
    ↔ ((is_empty (strip "src/main.py") ≡ false)
        × (has_prefix "/" "src/main.py" ≡ false)
        × (lexical true (loaded_policy.workspace ++ path_parts "src/main.py")
            ≡ ok ("home" ∷ "work" ∷ "src" ∷ "main.py" ∷ []))
        × (inside loaded_policy.workspace ("home" ∷ "work" ∷ "src" ∷ "main.py" ∷ []) ≡ true)
        × IsOpen ("home" ∷ "work" ∷ "src" ∷ "main.py" ∷ []))
resolve_path_iff_example =
    resolve_path_iff lexical loaded_policy "src/main.py" true
      ("home" ∷ "work" ∷ "src" ∷ "main.py" ∷ [])

resolved :
    resolve_path lexical loaded_policy "src/./main.py" true
    ≡ ok ("home" ∷ "work" ∷ "src" ∷ "main.py" ∷ [])
unfolding resolve_path is_empty strip has_prefix path_parts split inside string_discrete
    check_protected_path check_secret_path elem lower file_name last_or_empty suffix suffix_of
    path_text join has_infix replace_char
resolved = refl

secret_suffix : suffix ("a" ∷ "..pem" ∷ []) ≡ ".pem"
unfolding suffix suffix_of split file_name last_or_empty is_empty
secret_suffix = refl

accepted :
    validate_command loaded_policy (pos 950000000) ("git" ∷ "pull" ∷ [])
    ≡ ok ("git" ∷ "pull" ∷ [], classify_command ("git" ∷ "pull" ∷ []))
unfolding validate_command check_words allow_process allow_network_commands live before is_empty
    path_name path_parts split last_or_empty string_discrete elem command_requires_network
    normalized_program network_subcommands lower has_suffix
accepted = refl

validate_command_iff_example :
    (validate_command loaded_policy (pos 950000000) ("git" ∷ "pull" ∷ [])
      ≡ ok ("git" ∷ "pull" ∷ [], classify_command ("git" ∷ "pull" ∷ [])))
    ↔ IsAccepted loaded_policy (pos 950000000) "git" ("pull" ∷ [])
validate_command_iff_example =
    validate_command_iff loaded_policy (pos 950000000) "git" ("pull" ∷ [])
