-- ===== src/Sandbox/Defs.antt =====
-- `SandboxRunner` of src/gpthands/sandbox.py. The Windows AppContainer is given by what its run returns.
use gpthands.Prelude.{
  ℕ, String, ◌<>◌, Bool, true, false, not, ◌&&◌, ◌||◌, Option, none, some, List, [], ◌∷◌, ◌++◌,
  ◌=?◌, if◌then◌else◌, strip, lower, has_prefix, has_infix, replace_char, join, take_chars,
  sandbox_error, ok, err, raise, ◌>>=◌, ◌>>◌,
}
use gpthands.Prelude.Errors.{Result, error}
use gpthands.Json.{int_is}
use gpthands.Policy.Defs.{FilePath}
use gpthands.Policy.Paths.{path_text}
use gpthands.Process.Defs.{Child, BoundedProcessResult, run_bounded_process}

pub record SandboxPlan : Type 0 where
  pub backend : String
  pub argv : List String
  pub profile_text : Option String

-- What a run is asked for.
pub record Request : Type 0 where
  pub command : List String
  pub workspace : FilePath
  pub cwd : FilePath
  pub allow_write : Bool
  pub allow_network : Bool
  pub env : List (String × String)
  pub timeout : ℕ
  pub max_output_bytes : ℕ

-- The machine: platform.system(), shutil.which, which paths exist, the AppContainer, and the child that
-- an argument vector starts in a directory under an environment.
pub record Machine : Type 0 where
  pub system : String
  pub which : String → Option String
  pub exists : String → Bool
  pub appcontainer_available : Bool
  pub appcontainer_run : Request → Result BoundedProcessResult
  pub child : List String → FilePath → List (String × String) → Child

-- The loop over the system paths.
unfoldable pub system_binds : (String → Bool) → List String → List String
system_binds exists [] = []
system_binds exists (path ∷ paths) =
    let rest = system_binds exists paths in
    if exists path then "--ro-bind" ∷ path ∷ path ∷ rest else rest

abbrev pub system_paths : List String
system_paths = "/usr" ∷ "/bin" ∷ "/sbin" ∷ "/lib" ∷ "/lib64" ∷ "/etc" ∷ []

unfoldable pub bind_flag : Bool → String
bind_flag allow_write = if allow_write then "--bind" else "--ro-bind"

-- The options of _linux_bwrap, up to the separator.
unfoldable pub bwrap_options : (String → Bool) → String → Request → List String
bwrap_options exists bwrap r =
    (bwrap ∷ "--die-with-parent" ∷ "--new-session" ∷ "--unshare-all" ∷ [])
    ++ (if r.allow_network then "--share-net" ∷ [] else [])
    ++ system_binds exists system_paths
    ++ ("--dev"
        ∷ "/dev"
        ∷ "--proc"
        ∷ "/proc"
        ∷ "--tmpfs"
        ∷ "/tmp"
        ∷ "--dir"
        ∷ "/tmp/gpthands-home"
        ∷ "--setenv"
        ∷ "HOME"
        ∷ "/tmp/gpthands-home"
        ∷ "--setenv"
        ∷ "TMPDIR"
        ∷ "/tmp"
        ∷ bind_flag r.allow_write
        ∷ path_text r.workspace
        ∷ path_text r.workspace
        ∷ "--chdir"
        ∷ path_text r.cwd
        ∷ [])

-- _linux_bwrap
unfoldable pub linux_bwrap : (String → Bool) → String → Request → List String
linux_bwrap exists bwrap r = bwrap_options exists bwrap r ++ "--" ∷ r.command

-- q
unfoldable pub quoted : String → String
quoted value = "\"" <> (replace_char b'"' "\\\"" (replace_char b'\\' "\\\\" value) <> "\"")

-- _macos_profile
unfoldable pub macos_profile : Request → FilePath → String
macos_profile r isolated_home = join "\n" (
    ("(version 1)"
      ∷ "(deny default)"
      ∷ "(import \"system.sb\")"
      ∷ "(allow process-exec)"
      ∷ "(allow process-fork)"
      ∷ "(allow process-info* (target same-sandbox))"
      ∷ "(allow signal (target same-sandbox))"
      ∷ "(allow mach-priv-task-port (target same-sandbox))"
      ∷ "(allow sysctl-read)"
      ∷ "(allow mach-host*)"
      ∷ "(allow user-preference-read)"
      ∷ "(allow iokit-open)"
      ∷ "(allow ipc-posix-sem)"
      ∷ "(allow ipc-posix-shm-read*)"
      ∷ "(allow file-read-metadata)"
      ∷ "(allow file-ioctl)"
      ∷ "(allow mach-lookup"
      ∷ "  (global-name \"com.apple.logd\")"
      ∷ "  (global-name \"com.apple.system.logger\")"
      ∷ "  (global-name \"com.apple.system.notification_center\")"
      ∷ "  (global-name \"com.apple.system.opendirectoryd.libinfo\")"
      ∷ "  (global-name \"com.apple.SystemConfiguration.configd\")"
      ∷ "  (global-name \"com.apple.distributed_notifications@Uv3\"))"
      ∷ "(allow file-read* (subpath \"/usr\"))"
      ∷ "(allow file-read* (subpath \"/bin\"))"
      ∷ "(allow file-read* (subpath \"/sbin\"))"
      ∷ "(allow file-read* (subpath \"/System\"))"
      ∷ "(allow file-read* (subpath \"/Library\"))"
      ∷ "(allow file-read* (subpath \"/private/etc\"))"
      ∷ "(allow file-read* (subpath \"/private/var/db\"))"
      ∷ "(allow file-read* (literal \"/dev/random\"))"
      ∷ "(allow file-read* (literal \"/dev/urandom\"))"
      ∷ "(allow file-write* (literal \"/dev/null\"))"
      ∷ "(allow file-write* (literal \"/dev/zero\"))"
      ∷ ("(allow file-read* (subpath " <> (quoted (path_text r.workspace) <> "))"))
      ∷ ("(allow file-read* file-write* (subpath " <> (quoted (path_text isolated_home) <> "))"))
      ∷ "(allow file-read* file-write* (subpath \"/private/tmp\"))"
      ∷ [])
    ++ (if r.allow_write
        then ("(allow file-write* (subpath " <> (quoted (path_text r.workspace) <> "))")) ∷ []
        else [])
    ++ (if r.allow_network
        then "(allow network-outbound)" ∷ "(allow network-inbound)" ∷ []
        else "(deny network*)" ∷ []))

-- raise SandboxError(str(exc)) from exc
unfoldable pub as_sandbox_error : Result BoundedProcessResult → Result BoundedProcessResult
as_sandbox_error (err (error kind message)) = raise sandbox_error message
as_sandbox_error (ok result) = ok result

-- proc_env, whose keys are not in `env` yet
unfoldable pub proc_env : String → FilePath → List (String × String) → List (String × String)
proc_env backend isolated_home env =
    if backend =? "bubblewrap"
    then env ++ ("HOME", "/tmp/gpthands-home") ∷ ("TMPDIR", "/tmp") ∷ []
    else env ++ ("HOME", path_text isolated_home) ∷ ("TMPDIR", path_text isolated_home) ∷ []

-- The check of a bubblewrap run that failed: whether it is bubblewrap's own failure.
unfoldable pub check_setup : String → Bool → BoundedProcessResult → Result (Unit {0})
check_setup backend allow_network completed =
    let diagnostic = strip completed.stdout in
    if backend =? "bubblewrap"
      && not (int_is completed.returncode 0)
      && has_prefix "bwrap:" diagnostic
    then if not allow_network
        && (has_infix "loopback" diagnostic
            || has_infix "RTM_NEWADDR" diagnostic
            || has_infix "network namespace" (lower diagnostic))
      then raise sandbox_error
          "Linux network namespace isolation is unavailable on this host; refusing to run the target process with network denied"
      else raise sandbox_error ("bubblewrap sandbox setup failed: " <> take_chars 500 diagnostic)
    else ok tt

module _ (m : Machine) (require_os_sandbox : Bool) (isolated_home : FilePath) where
  -- The end of `plan`, where no backend was found.
  unfoldable pub without_backend : Request → Result SandboxPlan
  without_backend r =
      if require_os_sandbox
      then raise sandbox_error "OS sandbox is required but unavailable"
      else ok (record { backend = "policy-only"; argv = r.command; profile_text = none })

  unfoldable pub linux_plan : Option String → Request → Result SandboxPlan
  linux_plan none r = without_backend r
  linux_plan (some bwrap) r =
      ok (record {
        backend = "bubblewrap";
        argv = linux_bwrap m.exists bwrap r;
        profile_text = none;
      })

  unfoldable pub darwin_plan : Option String → Request → Result SandboxPlan
  darwin_plan none r = without_backend r
  darwin_plan (some sandbox_exec) r = ok (record {
    backend = "sandbox-exec";
    argv = sandbox_exec ∷ "-p" ∷ macos_profile r isolated_home ∷ r.command;
    profile_text = some (macos_profile r isolated_home);
  })

  unfoldable pub windows_plan : Bool → Request → Result SandboxPlan
  windows_plan false r = without_backend r
  windows_plan true r =
      ok (record { backend = "windows-appcontainer"; argv = r.command; profile_text = none })

  -- SandboxRunner.plan
  unfoldable pub plan : Request → Result SandboxPlan
  plan r =
      let system = lower m.system in
      if system =? "linux"
      then linux_plan (m.which "bwrap") r
      else if system =? "darwin"
      then darwin_plan (m.which "sandbox-exec") r
      else if system =? "windows"
      then windows_plan m.appcontainer_available r
      else without_backend r

  unfoldable pub start : SandboxPlan → Request → Result BoundedProcessResult
  start p r =
      if p.backend =? "windows-appcontainer"
      then as_sandbox_error (m.appcontainer_run r)
      else as_sandbox_error (
          run_bounded_process p.argv r.timeout r.max_output_bytes
            (m.child p.argv r.cwd (proc_env p.backend isolated_home r.env)))

  -- SandboxRunner.run
  unfoldable pub run : Request → Result (BoundedProcessResult × String)
  run r = do
    p ← plan r
    completed ← start p r
    check_setup p.backend r.allow_network completed
    ok (completed, p.backend)
