-- ===== src/Policy/Load.antt =====
-- `migrate_policy_data`, `_parse_expiry` and `Policy.load` of src/gpthands/policy.py.
use gpthands.Prelude.{
  ℕ, ◌+◌, ◌*◌, String, ◌<>◌, Bool, true, false, not, ◌&&◌, ◌||◌, Option, none, some, List, [], ◌∷◌,
  ◌==◌, leb, if◌then◌else◌, elem, all, is_empty, strip, replace_char, policy_error, ok, err, raise,
  error, ◌>>=◌, ◌>>◌,
}
use gpthands.Prelude.Errors.{Result, require}
use gpthands.Json.{
  ℤ, pos, negsuc, Json, null, bool, int, real, text, arr, obj, Items, nil, cons, Fields, end, field,
  get, pop, put,
}
use gpthands.Time.{before, later_by, seconds}
use gpthands.Risk.{RiskLevel, parse}
use gpthands.Policy.Defs.{Policy, FilePath, policy_schema_version, max_lease_seconds, policy_keys}
use gpthands.Policy.Paths.{inside}

-- set(d)
unfoldable pub keys : Fields → List String
keys end = []
keys (field k v rest) = k ∷ keys rest

-- The version a raw policy claims; a policy without one counts as version 2.
unfoldable pub schema_version : Fields → Result ℤ
schema_version raw = elim (get "schema_version" raw) [
  | none ↦ ok (pos 2)
  | some (int z) ↦ ok z
  | some _ ↦ raise policy_error "schema_version must be an integer"
]

unfoldable pub supported : ℤ → Bool
supported (pos n) = leb 1 n && leb n policy_schema_version
supported (negsuc n) = false

-- The short spelling of version 1.
unfoldable pub rename_network : ℤ → Fields → Result Fields
rename_network (pos n) raw = elim (get "allow_network" raw) [
  | none ↦ ok raw
  | some v ↦ if not (n == 1) then ok raw else elim (get "allow_network_commands" raw) [
    | some w ↦ raise policy_error "policy contains both allow_network and allow_network_commands"
    | none ↦ ok (put "allow_network_commands" v (pop "allow_network" raw))
  ]
]
rename_network (negsuc n) raw = ok raw

abbrev pub current_version : Json
current_version = int (pos policy_schema_version)

-- migrate_policy_data
unfoldable pub migrate_policy_data : Fields → Result Fields
migrate_policy_data raw = do
  version ← schema_version raw
  require (supported version) policy_error "unsupported policy schema_version"
  migrated ← rename_network version raw
  require (all (λ key. elem key policy_keys) (keys migrated)) policy_error "unknown policy field(s)"
  ok (put "schema_version" current_version migrated)

-- What `datetime.fromisoformat` reads: the time as UTC, and by its own zone if it names one.
pub record Moment : Type 0 where
  pub as_utc : ℤ
  pub zoned : Option ℤ

abbrev pub FromIso : Type 0
FromIso = String → Option Moment

-- parsed.timestamp(), where a time without a zone is taken as UTC
unfoldable pub timestamp : Moment → ℤ
timestamp moment = elim moment.zoned [ none ↦ moment.as_utc | some t ↦ t ]

module _ (from_iso : FromIso) where
  -- _parse_expiry
  unfoldable pub parse_expiry : Option Json → String → Result (Option ℤ)
  parse_expiry none name = ok none
  parse_expiry (some null) name = ok none
  parse_expiry (some (int z)) name = ok (some (seconds z))
  parse_expiry (some (real z)) name = ok (some z)
  parse_expiry (some (text t)) name = elim (from_iso (replace_char b'Z' "+00:00" (strip t))) [
    | none ↦ raise policy_error (name <> " must be an ISO-8601 timestamp or unix time")
    | some moment ↦ ok (some (timestamp moment))
  ]
  parse_expiry (some _) name =
      raise policy_error (name <> " must be an ISO-8601 timestamp or unix time")

-- all(isinstance(x, str) and x for x in allowed)
unfoldable pub texts : Items → Option (List String)
texts nil = some []
texts (cons (text t) items) = elim (texts items) [
  | none ↦ none
  | some rest ↦ if is_empty t then none else some (t ∷ rest)
]
texts (cons _ items) = none

unfoldable pub allowed_value : Fields → Result (List String)
allowed_value raw = elim (get "allowed_commands" raw) [
  | none ↦ ok []
  | some (arr items) ↦ elim (texts items) [
    | none ↦ raise policy_error "allowed_commands must be a list of non-empty strings"
    | some names ↦ ok names
  ]
  | some _ ↦ raise policy_error "allowed_commands must be a list of non-empty strings"
]

unfoldable pub bool_value : Fields → String → Bool → Result Bool
bool_value raw name default = elim (get name raw) [
  | none ↦ ok default
  | some (bool b) ↦ ok b
  | some _ ↦ raise policy_error (name <> " must be boolean")
]

unfoldable pub in_range : String → ℕ → ℕ → ℤ → Result ℕ
in_range name minimum maximum (pos n) =
    if leb minimum n && leb n maximum then ok n else raise policy_error (name <> " is out of range")
in_range name minimum maximum (negsuc n) = raise policy_error (name <> " is out of range")

unfoldable pub int_value : Fields → String → ℕ → ℕ → ℕ → Result ℕ
int_value raw name default minimum maximum = elim (get name raw) [
  | none ↦ in_range name minimum maximum (pos default)
  | some (int z) ↦ in_range name minimum maximum z
  | some _ ↦ raise policy_error (name <> " must be an integer")
]

-- expiry is not None and expiry > now + _MAX_LEASE_SECONDS + 1
unfoldable pub too_long : ℤ → Option ℤ → Bool
too_long now none = false
too_long now (some expiry) = before (later_by now ((max_lease_seconds * 1000000) + 1000000)) expiry

unfoldable pub check_lease : ℤ → String → Option ℤ → Result (Unit {0})
check_lease now name expiry =
    require (not (too_long now expiry)) policy_error
      (name <> " cannot grant more than 24 hours of authority")

unfoldable pub approval_level : Fields → Result RiskLevel
approval_level raw = elim (get "approval_required_from" raw) [
  | none ↦ parse "EXEC"
  | some (text t) ↦ elim (parse t) [
    | ok r ↦ ok r
    | err (error kind message) ↦ raise policy_error message
  ]
  | some _ ↦ raise policy_error "approval_required_from must be a risk level string"
]

-- A policy file that exists: what `stat` says of it and its directory, and what `json.loads` makes of
-- its text, none where it cannot be read or is not JSON.
pub record PolicyFile : Type 0 where
  pub regular : Bool
  pub private : Bool
  pub owned : Bool
  pub parent_private : Bool
  pub content : Option Json

-- The place of the policy, as the file system gives it; `posix` is `os.name != "nt"`.
pub record Site : Type 0 where
  pub posix : Bool
  pub root : FilePath
  pub root_is_dir : Bool
  pub symlink : Bool
  pub path : FilePath
  pub file : Option PolicyFile

unfoldable pub check_file : Bool → PolicyFile → Result (Unit {0})
check_file posix file = do
  require file.regular policy_error "policy file must be a regular file"
  require (not posix || file.private) policy_error "policy file permissions must be 0600"
  require (not posix || file.owned) policy_error "policy file must be owned by current user"
  require (not posix || file.parent_private) policy_error
      "policy directory must not be group/world writable"

unfoldable pub read_policy : Site → Result Fields
read_policy site = elim site.file [
  | none ↦ ok (field "schema_version" current_version end)
  | some file ↦ do
    check_file site.posix file
    elim file.content [
      | none ↦ raise policy_error "invalid policy file"
      | some (obj raw) ↦ migrate_policy_data raw
      | some _ ↦ raise policy_error "policy root must be an object"
    ]
]

module _ (from_iso : FromIso) (now : ℤ) where
  -- The fields of the policy, in the order in which the code computes them.
  unfoldable pub build : FilePath → FilePath → Fields → Result Policy
  build root path raw = do
    allowed ← allowed_value raw
    write_exp ← parse_expiry from_iso (get "write_lease_until" raw) "write_lease_until"
    process_exp ← parse_expiry from_iso (get "process_lease_until" raw) "process_lease_until"
    network_exp ← parse_expiry from_iso (get "network_lease_until" raw) "network_lease_until"
    check_lease now "write_lease_until" write_exp
    check_lease now "process_lease_until" process_exp
    check_lease now "network_lease_until" network_exp
    level ← approval_level raw
    write ← bool_value raw "allow_write" false
    process ← bool_value raw "allow_process" false
    network ← bool_value raw "allow_network_commands" false
    sandbox ← bool_value raw "require_os_sandbox" true
    read_bytes ← int_value raw "max_read_bytes" 1000000 1 20000000
    write_bytes ← int_value raw "max_write_bytes" 1000000 1 20000000
    command_seconds ← int_value raw "max_command_seconds" 30 1 600
    output_bytes ← int_value raw "max_output_bytes" 200000 1000 5000000
    requests ← int_value raw "max_requests_per_minute" 120 1 6000
    concurrent ← int_value raw "max_concurrent_actions" 4 1 64
    queue ← int_value raw "max_queue_seconds" 2 0 30
    ok (record {
      workspace = root;
      policy_path = path;
      schema_version = policy_schema_version;
      write_enabled = write;
      process_enabled = process;
      network_enabled = network;
      require_os_sandbox = sandbox;
      approval_required_from = level;
      allowed_commands = allowed;
      max_read_bytes = read_bytes;
      max_write_bytes = write_bytes;
      max_command_seconds = command_seconds;
      max_output_bytes = output_bytes;
      max_requests_per_minute = requests;
      max_concurrent_actions = concurrent;
      max_queue_seconds = queue;
      write_lease_until = write_exp;
      process_lease_until = process_exp;
      network_lease_until = network_exp;
    })

  -- Policy.load
  unfoldable pub load : Site → Result Policy
  load site = do
    require site.root_is_dir policy_error "workspace is not a directory"
    require (not site.symlink) policy_error "policy file must not be a symlink"
    require (not (inside site.root site.path)) policy_error
        "policy authority must live outside the workspace"
    raw ← read_policy site
    build site.root site.path raw
