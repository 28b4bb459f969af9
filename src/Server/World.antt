-- ===== src/Server/World.antt =====
-- What the server of src/gpthands/server.py keeps and what it finds: its state, its surroundings during
-- one call, and the helpers of its tools.
use gpthands.Prelude.{
  ℕ, String, Bool, true, false, not, ◌&&◌, Option, some, List, ltb, len, if◌then◌else◌, is_empty,
  value_error, policy_error, os_error, ok, err, raise, ◌>>=◌, ◌>>◌,
}
use gpthands.Prelude.Errors.{Result, require}
use gpthands.Json.{ℤ, pos, Json, int, text, obj, Fields, end, field, get}
use gpthands.Audit.Defs.{Runtime, LogFile}
use gpthands.Audit.Append.{LogIo}
use gpthands.Policy.Defs.{Policy, FilePath}
use gpthands.Policy.Paths.{Resolver, inside, path_text}
use gpthands.SafeWrite.Defs.{Entry, file, Host}
use gpthands.SafeWrite.Stable.{Disk, below, relative_text}
use gpthands.State.{StateFile}
use gpthands.Approval.Defs.{Store, StoreIo}
use gpthands.Approval.Tokens.{Crypto}
use gpthands.Pending.Defs.{Place}
use gpthands.Trust.Defs.{Workspace}
use gpthands.Sandbox.Defs.{Machine, SandboxPlan}

-- The fields of the server that change, and the files that its tools write.
pub record World : Type 0 where
  pub approvals : Store
  pub queue : StateFile
  pub previews : List String
  pub disk : Disk
  pub log : LogFile

-- What holds during one call of a tool: the policy, the clock read in microseconds for the leases and
-- in seconds for the tokens, the libraries, and the answers of the operating system.
pub record Surroundings : Type 0 where
  pub policy : Policy
  pub now : ℤ
  pub seconds : ℕ
  pub timestamp : String
  -- what the operating system answers to the record of each outcome
  pub audit_io : String → LogIo
  pub runtime : Runtime
  pub dumps_indented : Json → String
  pub crypto : Crypto
  pub key : String
  pub resolve : Resolver
  pub is_utf8 : String → Bool
  pub host : Host
  pub store_io : StoreIo
  pub queue_opens : Bool
  pub queue_locked : Bool
  pub queue_writes : Bool
  pub unified_diff : String → String → String → String
  -- path.iterdir() and path.rglob("*")
  pub iterdir : FilePath → List String
  pub rglob : FilePath → List FilePath
  -- the sandbox's machine, its temporary home, PATH, and what the child that a plan starts, sandboxed or
  -- not, makes of the disk
  pub machine : Machine
  pub isolated_home : FilePath
  pub search_path : String
  pub effect : SandboxPlan → Disk → Disk
  -- the workspace and the file as WorkspaceTrustStore sees them
  pub trust_place : Workspace
  pub trust_file : StateFile

-- What follows a call that returned.
abbrev pub then_do {ℓ κ} :
    {A : Type ℓ} {B : Type κ} → Result A × World → (A → World → Result B × World) → Result B × World
then_do (err e, w) rest = (err e, w)
then_do (ok a, w) rest = rest a w

-- A tool's answer: its text, and the detail for the audit log.
abbrev pub Answer : Type 0
Answer = String × Json

unfoldable pub str_value : Bool → String → Option Json → Result String
str_value allow_empty key (some (text t)) =
    if is_empty t && not allow_empty then raise value_error "must be a non-empty string" else ok t
str_value allow_empty key _ = raise value_error "must be a string"

-- _require_str
unfoldable pub require_str : Fields → String → Bool → Result String
require_str args key allow_empty = str_value allow_empty key (get key args)

-- path.is_file() on a resolved path
unfoldable pub is_file : Option Entry → Bool
is_file (some (file content)) = true
is_file _ = false

module _ (s : Surroundings) where
  -- V10GPTHandsServer._bounded_text
  unfoldable pub bounded_text : Option Entry → ℕ → Result (String × ℕ)
  bounded_text (some (file data_bytes)) limit = do
    require (not (ltb limit (len data_bytes))) policy_error "file exceeds bounded read limit"
    require (s.is_utf8 data_bytes) policy_error "binary/non-UTF-8 files are not readable"
    ok (data_bytes, len data_bytes)
  bounded_text _ limit = raise os_error "cannot open the file"

  -- _relative
  unfoldable pub relative : FilePath → Result String
  relative path = do
    real ← s.resolve false path
    require (inside s.policy.workspace real) value_error
        "path is not in the subpath of the workspace"
    ok (relative_text (below s.policy.workspace real))

  -- _action_hash
  unfoldable pub action_hash : String → Fields → String
  action_hash name payload =
      s.runtime.sha256 (
        s.runtime.dumps_compact
          (obj (field "name" (text name) (field "payload" (obj payload) end))))

  -- content_fingerprint
  unfoldable pub content_fingerprint : String → Json
  content_fingerprint value =
      obj
        (field "bytes" (int (pos (len value))) (field "sha256" (text (s.runtime.sha256 value)) end))

  -- The workspace as the queue of pending approvals names it.
  unfoldable pub place : Place
  place = record {
    path = path_text s.policy.workspace;
    id = s.crypto.workspace_id s.policy.workspace;
  }
