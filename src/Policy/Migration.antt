-- ===== src/Policy/Migration.antt =====
-- What migration does to a policy, and what no policy file means.
use gpthands.Prelude.{
  string_discrete, upper, strip, String, Bool, true, false, none, [], ◌≡◌, refl, arith, ok, all,
  elem, inl, inr,
}
use gpthands.Prelude.Errors.{Result-cases}
use gpthands.Json.{ℤ, Json, Fields, end, field, get, put, get-put, put-put}
use gpthands.Policy.Defs.{
  Policy, FilePath, policy_keys, allow_write, allow_process, allow_network_commands,
}
use gpthands.Risk.{exec, parse}
use gpthands.Policy.Paths.{inside}
use gpthands.Policy.Load.{
  allowed_value, parse_expiry, check_lease, too_long, approval_level, bool_value, int_value,
  in_range, FromIso, Site, keys, schema_version, supported, rename_network, current_version,
  migrate_policy_data, read_policy, load, build,
}

-- Every key that the policy holds is known.
abbrev known : Fields → Bool
known raw = all (λ key. elem key policy_keys) (keys raw)

known-put :
    (key : String) (v : Json) (raw : Fields)
    → elem key policy_keys ≡ true
    → known raw ≡ true
    → known (put key v raw) ≡ true
unfolding keys put
known-put key v end h k = ground arith
known-put key v (field j w rest) h k = ground (arith, known-put key v rest h)

-- Migration ends by setting the version of a policy of known fields.
migrate_policy_data_parts :
    (raw migrated : Fields)
    → migrate_policy_data raw ≡ ok migrated
    → (m : Fields) × (known m ≡ true) × (migrated ≡ put "schema_version" current_version m)
unfolding migrate_policy_data
migrate_policy_data_parts raw migrated h = elim (Result-cases (schema_version raw)) [
  | inl (e, v) ↦ absurd (ground arith)
  | inr (z, v) ↦ elim (Result-cases (rename_network z raw)) [
    | inl (e, r) ↦ absurd (ground arith)
    | inr (m, r) ↦ (m, ground arith, ground arith)
  ]
]

known_version : elem "schema_version" policy_keys ≡ true
unfolding elem string_discrete
known_version = refl

-- A policy of known fields at the current version migrates to itself.
migrate_policy_data_current :
    (m : Fields)
    → known m ≡ true
    → migrate_policy_data (put "schema_version" current_version m)
      ≡ ok (put "schema_version" current_version m)
unfolding migrate_policy_data schema_version supported rename_network
migrate_policy_data_current m h = ground (
  arith,
  get-put "schema_version" current_version m,
  known-put "schema_version" current_version m known_version h,
  put-put "schema_version" current_version current_version m,
)

-- Migrating a policy that has been migrated changes nothing.
pub migrate_policy_data_idem :
    (raw migrated : Fields)
    → migrate_policy_data raw ≡ ok migrated
    → migrate_policy_data migrated ≡ ok migrated
migrate_policy_data_idem raw migrated h =
    let (m, k, e) = migrate_policy_data_parts raw migrated h in
    rw e (migrate_policy_data_current m k)

-- The policy without a file.
abbrev pub default_policy : FilePath → FilePath → Policy
default_policy root path = record {
  workspace = root;
  policy_path = path;
  schema_version = 3;
  write_enabled = false;
  process_enabled = false;
  network_enabled = false;
  require_os_sandbox = true;
  approval_required_from = exec;
  allowed_commands = [];
  max_read_bytes = 1000000;
  max_write_bytes = 1000000;
  max_command_seconds = 30;
  max_output_bytes = 200000;
  max_requests_per_minute = 120;
  max_concurrent_actions = 4;
  max_queue_seconds = 2;
  write_lease_until = none;
  process_lease_until = none;
  network_lease_until = none;
}

module _ (from_iso : FromIso) (now : ℤ) where
  build-default :
      (root path : FilePath)
      → build from_iso now root path (field "schema_version" current_version end)
        ≡ ok (default_policy root path)
  unfolding build allowed_value get string_discrete parse_expiry check_lease too_long approval_level
      parse upper strip bool_value int_value in_range
  build-default root path = refl

  -- Where the place of the policy is sound and there is no policy file, what loads is the policy that
  -- allows no write, no process and no network at any time, asks for the OS sandbox, has an empty
  -- allow list and wants approval from EXEC on.
  pub load-missing :
      (site : Site)
      → site.file ≡ none
      → site.root_is_dir ≡ true
      → site.symlink ≡ false
      → inside site.root site.path ≡ false
      → (load from_iso now site ≡ ok (default_policy site.root site.path))
        × ((t : ℤ)
            → (allow_write (default_policy site.root site.path) t ≡ false)
              × (allow_process (default_policy site.root site.path) t ≡ false)
              × (allow_network_commands (default_policy site.root site.path) t ≡ false))
  unfolding load read_policy allow_write allow_process allow_network_commands
  load-missing site missing dir plain outside =
      (ground (arith, build-default site.root site.path), λ t. (refl, refl, refl))
