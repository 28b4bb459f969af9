-- ===== src/Server/Samples.antt =====
-- A workspace with one file, and a server for it.
use gpthands.Prelude.{
  String, true, false, none, some, [], ◌∷◌, ◌=?◌, ok, raise, sandbox_error, if◌then◌else◌,
}
use gpthands.Json.{pos, text, Fields, end, field}
use gpthands.Policy.Defs.{Policy}
use gpthands.Policy.Migration.{default_policy}
use gpthands.Risk.{network}
use gpthands.SafeWrite.Defs.{file, directory}
use gpthands.SafeWrite.Stable.{Disk}
use gpthands.Audit.Defs.{written_whole}
use gpthands.Audit.Samples.{quiet_io}
use gpthands.Server.World.{World, Surroundings}

abbrev pub digest : String
digest = "0123456789abcdef0123456789abcdef0123456789abcdef0123456789abcdef"

abbrev pub policy : Policy
policy = record (default_policy ("work" ∷ []) ("state" ∷ "policy.json" ∷ [])) {
  write_enabled = true;
  write_lease_until = some (pos 1000);
  approval_required_from = network;
}

abbrev pub disk : Disk
disk [] = some directory
disk (a ∷ []) = if a =? "work" then some directory else none
disk (a ∷ b ∷ []) = if b =? "a.txt" then some (file "old") else none
disk (a ∷ b ∷ c ∷ path) = none

abbrev pub server : Surroundings
server = record {
  policy = policy;
  now = pos 500;
  seconds = 1;
  timestamp = "now";
  audit_io = λ outcome. quiet_io;
  runtime = record {
    sha256 = λ t. digest;
    loads = λ t. none;
    dumps = λ v. "";
    dumps_sorted = λ v. "";
    dumps_compact = λ v. "";
    show = λ v. "";
    parse_int = λ t. none;
    truncate = λ z. z;
  };
  dumps_indented = λ v. "{}";
  crypto = record {
    hmac = λ key raw. "mac1";
    b64encode = λ t. t;
    b64decode = λ t. some t;
    workspace_id = λ path. "w1";
  };
  key = "k";
  resolve = λ strict path. ok path;
  is_utf8 = λ t. true;
  host = record {
    opens = true;
    parent_is_dir = true;
    temp_name = ".gpthands-00";
    creates = true;
    writes = 3 ∷ [];
    syncs = true;
    changes = λ n. none;
    replaces = true;
    links = true;
    unlinks = true;
    syncs_parent = true;
  };
  store_io = record {
    locked = true;
    reads = true;
    opens = true;
    stats = true;
    secures = true;
    writes = written_whole;
    syncs = true;
  };
  queue_opens = true;
  queue_locked = true;
  queue_writes = true;
  unified_diff = λ target old new. "-old\n+new\n";
  iterdir = λ path. "a.txt" ∷ [];
  rglob = λ path. ("work" ∷ "a.txt" ∷ []) ∷ [];
  machine = record {
    system = "Linux";
    which = λ program. none;
    exists = λ path. true;
    appcontainer_available = false;
    appcontainer_run = λ r. raise sandbox_error "not available";
    child = λ argv cwd env. record {
      pipe = true;
      in_time = true;
      chunks = [];
      drained = true;
      read_failed = false;
      returncode = pos 0;
    };
  };
  isolated_home = "tmp" ∷ [];
  search_path = "/usr/bin:/bin";
  effect = λ p d. d;
  trust_place = record { is_dir = true; canonical = "/work"; dir_name = "work" };
  trust_file = record { exists = false; symlink = false; is_file = false; content = none };
}

abbrev pub world : World
world = record {
  approvals = record {
    file = record {
      posix = true;
      exists = false;
      symlink = false;
      regular = false;
      private = false;
      owned = false;
      lines = [];
      rest = "";
    };
    consumed = [];
  };
  queue = record { exists = false; symlink = false; is_file = false; content = none };
  previews = [];
  disk = disk;
  log = record { lines = []; rest = "" };
}

abbrev pub edit_args : Fields
edit_args = field "target" (text "a.txt") (field "new_content" (text "new") end)
