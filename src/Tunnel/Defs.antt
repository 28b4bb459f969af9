-- ===== src/Tunnel/Defs.antt =====
-- `build_tunnel_plan` and `_runtime_env` of src/gpthands/tunnel.py, away from Windows.
use gpthands.Prelude.{
  replace_from, ℕ, String, ◌<>◌, Bool, not, ◌&&◌, ◌||◌, Option, none, some, List, [], ◌∷◌, ◌==◌,
  ◌=?◌, leb, count, elem, if◌then◌else◌, all_chars, has_prefix, drop_chars, is_empty, strip, upper,
  tunnel_error, ok, err, raise, ◌>>=◌, ◌>>◌,
}
use gpthands.Prelude.Errors.{Result, error, require}
use gpthands.Audit.Redact.{redact_text}
use gpthands.Process.Defs.{Child, BoundedProcessResult, no_output, no_words, drain_stdout}
use gpthands.Credentials.{Platform, get_credential}

pub record TunnelPlan : Type 0 where
  pub executable : String
  pub profile : String
  pub init_argv : List String
  pub doctor_argv : List String
  pub run_argv : List String

-- os.environ, as the pairs of its items
abbrev pub Environ : Type 0
Environ = List (String × String)

-- _TUNNEL_ENV_ALLOWLIST
abbrev pub tunnel_env_allowlist : List String
tunnel_env_allowlist =
    "PATH" ∷ "PATHEXT" ∷ "HOME" ∷ "USERPROFILE" ∷ "LOCALAPPDATA" ∷ "APPDATA" ∷ "XDG_CONFIG_HOME"
    ∷ "XDG_DATA_HOME" ∷ "TEMP" ∷ "TMP" ∷ "TMPDIR" ∷ "SYSTEMROOT" ∷ "WINDIR" ∷ "COMSPEC" ∷ "LANG"
    ∷ "LC_ALL" ∷ "LC_CTYPE" ∷ "SSL_CERT_FILE" ∷ "SSL_CERT_DIR" ∷ []

unfoldable pub is_lower_hex : ℕ → Bool
is_lower_hex c = (leb b'0' c && leb c b'9') || (leb b'a' c && leb c b'f')

unfoldable pub is_profile_char : ℕ → Bool
is_profile_char c =
    (leb b'A' c && leb c b'Z')
    || (leb b'a' c && leb c b'z')
    || (leb b'0' c && leb c b'9')
    || c == b'_'
    || c == b'.'
    || c == b'-'

-- _TUNNEL_ID.fullmatch(text)
unfoldable pub is_tunnel_id : String → Bool
is_tunnel_id t =
    has_prefix "tunnel_" t && (count t == 39 && all_chars is_lower_hex (drop_chars 7 t))

-- re.fullmatch(r"[A-Za-z0-9_.-]{1,64}", profile)
unfoldable pub is_profile : String → Bool
is_profile t = leb 1 (count t) && leb (count t) 64 && all_chars is_profile_char t

-- The first that is given and not empty.
unfoldable pub first_given : List (Option String) → Option String
first_given [] = none
first_given (none ∷ more) = first_given more
first_given (some t ∷ more) = let rest = first_given more in if is_empty t then rest else some t

module _ (expanduser : String → String) (exists : String → Bool) where
  unfoldable pub client_path : Option String → Result String
  client_path none = raise tunnel_error "official tunnel-client binary was not found"
  client_path (some candidate) = do
    require (not (has_prefix "/" (expanduser candidate)) || exists (expanduser candidate))
        tunnel_error "configured tunnel-client binary does not exist"
    ok (if has_prefix "/" (expanduser candidate) then expanduser candidate else candidate)

  -- find_tunnel_client, on the override, GPTHANDS_TUNNEL_CLIENT and shutil.which
  unfoldable pub find_tunnel_client : Option String → Option String → Option String → Result String
  find_tunnel_client override configured found =
      client_path (first_given (override ∷ configured ∷ found ∷ []))

  -- build_tunnel_plan, with the command line of _mcp_command
  unfoldable pub build_tunnel_plan :
      String → String → String → Option String → Option String → Option String → Result TunnelPlan
  build_tunnel_plan mcp_command tunnel_id profile binary configured found = do
    require (is_tunnel_id (strip tunnel_id)) tunnel_error
        "tunnel id must match tunnel_<32 lowercase hex characters>"
    require (is_profile profile) tunnel_error "profile name is invalid"
    executable ← find_tunnel_client binary configured found
    ok (record {
      executable = executable;
      profile = profile;
      init_argv =
          executable ∷ "init" ∷ "--profile" ∷ profile ∷ "--tunnel-id" ∷ tunnel_id
          ∷ "--control-plane-api-key-ref" ∷ "env:CONTROL_PLANE_API_KEY" ∷ "--mcp-command"
          ∷ mcp_command ∷ "--health-listen-addr" ∷ "127.0.0.1:0" ∷ [];
      doctor_argv = executable ∷ "doctor" ∷ "--profile" ∷ profile ∷ [];
      run_argv = executable ∷ "run" ∷ "--profile" ∷ profile ∷ [];
    })

-- _sanitized_runtime_env
unfoldable pub sanitized_runtime_env : Environ → Environ
sanitized_runtime_env [] = []
sanitized_runtime_env (item ∷ items) =
    let rest = sanitized_runtime_env items in
    if elem (upper item.0) tunnel_env_allowlist then item ∷ rest else rest

-- env[key] = value
unfoldable pub set_variable : String → String → Environ → Environ
set_variable key value [] = (key, value) ∷ []
set_variable key value (item ∷ items) =
    let rest = set_variable key value items in
    if item.0 =? key then (key, value) ∷ items else item ∷ rest

-- raise TunnelError(str(exc)) from exc
unfoldable pub as_tunnel_error : Result String → Result String
as_tunnel_error (err (error kind message)) = raise tunnel_error message
as_tunnel_error (ok secret) = ok secret

-- _runtime_env, of a credential's name that may be missing or empty
unfoldable pub runtime_env : Platform → Environ → Option String → Result (Environ × Option String)
runtime_env p environ none = ok (sanitized_runtime_env environ, none)
runtime_env p environ (some name) =
    let with_secret = as_tunnel_error (get_credential p name) >>= λ secret.
    ok (set_variable "CONTROL_PLANE_API_KEY" secret (sanitized_runtime_env environ), some secret) in
    if is_empty name then ok (sanitized_runtime_env environ, none) else with_secret

-- _redact_tunnel_output
unfoldable pub redact_tunnel_output : Option String → String → String
redact_tunnel_output none output = redact_text output
redact_tunnel_output (some secret) output =
    redact_text (if is_empty secret then output else replace_from 0 secret "[REDACTED]" output)

-- _MAX_TUNNEL_OUTPUT_BYTES
abbrev pub max_tunnel_output_bytes : ℕ
max_tunnel_output_bytes = 1000000

-- _TRUNCATED
abbrev pub tunnel_marker : String
tunnel_marker = "\n[output truncated by GPTHands tunnel policy]"

-- execute_tunnel_step: whether the client starts, and the child that the words start under an
-- environment. `drain` is the loop of `drain_stdout`. The timeout is none for `run`, whose child is
-- in time whenever it ends.
unfoldable pub execute_tunnel_step :
    Platform
    → Environ
    → Bool
    → (List String → Environ → Child)
    → List String
    → Option String
    → Result BoundedProcessResult
execute_tunnel_step p environ starts child argv name = do
  require (not (no_words argv)) tunnel_error "empty tunnel command"
  (env, secret) ← runtime_env p environ name
  require starts tunnel_error "tunnel-client execution failed"
  require (child argv env).pipe tunnel_error "tunnel-client stdout pipe was not created"
  require (child argv env).in_time tunnel_error "tunnel-client execution timed out"
  require (child argv env).drained tunnel_error "tunnel-client output drain did not terminate"
  require (not (child argv env).read_failed) tunnel_error "tunnel-client output capture failed"
  ok (
      let captured = drain_stdout max_tunnel_output_bytes no_output (child argv env).chunks in
      record {
        returncode = (child argv env).returncode;
        stdout =
            redact_tunnel_output secret
              (captured.kept <> (if captured.truncated then tunnel_marker else ""));
      })
