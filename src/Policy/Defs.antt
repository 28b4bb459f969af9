-- ===== src/Policy/Defs.antt =====
-- The `Policy` record of src/gpthands/policy.py, its leases and its constants.
use gpthands.Prelude.{
  ℕ, String, Bool, false, ◌&&◌, Option, none, some, List, [], ◌∷◌, leb, policy_error,
}
use gpthands.Prelude.Errors.{Result, require}
use gpthands.Json.{ℤ}
use gpthands.Time.{before}
use gpthands.Risk.{RiskLevel, rank}

-- An absolute path, as its parts below the root.
abbrev pub FilePath : Type 0
FilePath = List String

-- POLICY_SCHEMA_VERSION
abbrev pub policy_schema_version : ℕ
policy_schema_version = 3

-- _MAX_LEASE_SECONDS
abbrev pub max_lease_seconds : ℕ
max_lease_seconds = 86400

-- _POLICY_KEYS
abbrev pub policy_keys : List String
policy_keys =
    "schema_version" ∷ "allow_write" ∷ "allow_process" ∷ "allow_network_commands"
    ∷ "write_lease_until" ∷ "process_lease_until" ∷ "network_lease_until" ∷ "allowed_commands"
    ∷ "approval_required_from" ∷ "require_os_sandbox" ∷ "max_read_bytes" ∷ "max_write_bytes"
    ∷ "max_command_seconds" ∷ "max_output_bytes" ∷ "max_requests_per_minute"
    ∷ "max_concurrent_actions" ∷ "max_queue_seconds" ∷ []

pub record Policy : Type 0 where
  pub workspace : FilePath
  pub policy_path : FilePath
  pub schema_version : ℕ
  pub write_enabled : Bool
  pub process_enabled : Bool
  pub network_enabled : Bool
  pub require_os_sandbox : Bool
  pub approval_required_from : RiskLevel
  pub allowed_commands : List String
  pub max_read_bytes : ℕ
  pub max_write_bytes : ℕ
  pub max_command_seconds : ℕ
  pub max_output_bytes : ℕ
  pub max_requests_per_minute : ℕ
  pub max_concurrent_actions : ℕ
  pub max_queue_seconds : ℕ
  pub write_lease_until : Option ℤ
  pub process_lease_until : Option ℤ
  pub network_lease_until : Option ℤ

-- _live, at the time `now`
unfoldable pub live : ℤ → Option ℤ → Bool
live now none = false
live now (some expiry) = before now expiry

module _ (p : Policy) (now : ℤ) where
  unfoldable pub allow_write : Bool
  allow_write = p.write_enabled && live now p.write_lease_until

  unfoldable pub allow_process : Bool
  allow_process = p.process_enabled && live now p.process_lease_until

  unfoldable pub allow_network_commands : Bool
  allow_network_commands = p.network_enabled && (allow_process && live now p.network_lease_until)

  unfoldable pub require_write : Result (Unit {0})
  require_write =
      require allow_write policy_error "write capability is disabled or its lease expired"

-- risk >= self.approval_required_from
unfoldable pub approval_required : Policy → RiskLevel → Bool
approval_required p risk = leb (rank p.approval_required_from) (rank risk)
