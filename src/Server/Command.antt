-- ===== src/Server/Command.antt =====
-- `_run_command` and the curated git tools of src/gpthands/server.py, over the sandbox.
use gpthands.Prelude.{
  String, ◌<>◌, Bool, true, false, ◌&&◌, Option, none, some, List, [], ◌∷◌, ◌++◌, min, length, leb,
  len, if◌then◌else◌, is_empty, value_error, policy_error, ok, err, raise, ◌>>=◌, ◌>>◌,
}
use gpthands.Prelude.Errors.{Result, require}
use gpthands.Json.{
  pos, Json, null, bool, int, text, arr, obj, Items, nil, cons, Fields, end, field, get,
}
use gpthands.Policy.Defs.{FilePath, allow_write, allow_process, allow_network_commands}
use gpthands.Policy.Paths.{resolve_path}
use gpthands.Policy.Commands.{validate_command}
use gpthands.Process.Defs.{BoundedProcessResult}
use gpthands.Risk.{RiskLevel, network, rank, name, path_name}
use gpthands.SafeWrite.Defs.{is_directory}
use gpthands.Sandbox.Defs.{SandboxPlan, Request, plan, run}
use gpthands.SafeWrite.Stable.{Disk}
use gpthands.Server.World.{World, Surroundings, then_do, Answer, relative, action_hash}
use gpthands.Server.Approve.{require_approval}
use gpthands.Server.Read.{text_or, texts_of}

unfoldable pub words_of : Items → Option (List String)
words_of nil = some []
words_of (cons (text t) items) = elim (words_of items) [ none ↦ none | some rest ↦ some (t ∷ rest) ]
words_of (cons _ items) = none

unfoldable pub argv_of : Option Json → Result Items
argv_of (some (arr items)) = ok items
argv_of _ = raise value_error "argv must be an array"

unfoldable pub first_word : List String → String
first_word [] = ""
first_word (word ∷ words) = word

unfoldable pub optional_path : Option Json → Result (Option String)
optional_path none = ok none
optional_path (some null) = ok none
optional_path (some (text t)) = ok (if is_empty t then none else some t)
optional_path (some v) = raise value_error "staged must be boolean and path must be string"

unfoldable pub staged_flag : Option Json → Result Bool
staged_flag none = ok false
staged_flag (some (bool b)) = ok b
staged_flag (some v) = raise value_error "staged must be boolean and path must be string"

-- A command that has passed its checks.
pub record Command : Type 0 where
  pub argv : List String
  pub risk : RiskLevel
  pub cwd : FilePath
  pub cwd_text : String
  pub action : String

module _ (s : Surroundings) where
  -- _safe_env
  unfoldable pub safe_env : List (String × String)
  safe_env =
      ("PATH", s.search_path) ∷ ("LANG", "C.UTF-8") ∷ ("LC_ALL", "C.UTF-8") ∷ ("NO_COLOR", "1") ∷ []

  -- validate_command, on words that may be no texts
  unfoldable pub validate_words : Option (List String) → Result (List String × RiskLevel)
  validate_words (some argv) = validate_command s.policy s.now argv
  validate_words none = do
    require (allow_process s.policy s.now) policy_error
        "process capability is disabled or its lease expired"
    raise policy_error "command must be a non-empty string array"

  -- The checks of _run_command, up to the approval.
  unfoldable pub plan_command : Fields → World → Result Command
  plan_command args w = do
    items ← argv_of (get "argv" args)
    (argv, risk) ← validate_words (words_of items)
    cwd_value ← text_or "." (get "cwd" args)
    cwd ← resolve_path s.resolve s.policy cwd_value true
    require (is_directory (w.disk cwd)) policy_error "cwd is not a directory"
    rel ← relative s cwd
    ok (record {
      argv = argv;
      risk = risk;
      cwd = cwd;
      cwd_text = rel;
      action =
          action_hash s "run_command"
            (field "argv" (arr (texts_of argv)) (field "cwd" (text rel) end));
    })

  -- What the command makes of the disk, if there is a plan to start it by.
  unfoldable pub disk_after : Result SandboxPlan → Disk → Disk
  disk_after (err e) d = d
  disk_after (ok p) d = s.effect p d

  -- self.sandbox.run
  unfoldable pub run_sandboxed : Request → World → Result (BoundedProcessResult × String) × World
  run_sandboxed r w = (
    run s.machine s.policy.require_os_sandbox s.isolated_home r,
    record w {
      disk = disk_after (plan s.machine s.policy.require_os_sandbox s.isolated_home r) w.disk;
    },
  )

  unfoldable pub command_request : Command → Request
  command_request c = record {
    command = c.argv;
    workspace = s.policy.workspace;
    cwd = c.cwd;
    allow_write = allow_write s.policy s.now;
    allow_network = allow_network_commands s.policy s.now && leb (rank network) (rank c.risk);
    env = safe_env;
    timeout = s.policy.max_command_seconds;
    max_output_bytes = s.policy.max_output_bytes;
  }

  unfoldable pub command_answer : Command → BoundedProcessResult × String → Answer
  command_answer c (completed, backend) = (
    "exit_code="
        <> (s.runtime.show (some (int completed.returncode)) <> ("\n" <> completed.stdout)),
    obj (
        field "program" (text (path_name (first_word c.argv))) (
          field "argc" (int (pos (length c.argv))) (
            field "cwd" (text c.cwd_text) (
              field "exit_code" (int completed.returncode) (
                field "output_bytes" (int (pos (len completed.stdout)))
                  (field "risk" (text (name c.risk)) (field "sandbox" (text backend) end))))))),
  )

  -- _run_command
  unfoldable pub run_command : Fields → World → Result Answer × World
  run_command args w = elim (plan_command args w) [
    | err e ↦ (err e, w)
    | ok c ↦
        then_do (require_approval s (get "approval_token" args) c.risk c.action w) (λ granted v.
          then_do (run_sandboxed (command_request c) v) (λ done u. (ok (command_answer c done), u)))
  ]

  unfoldable pub git_request : List String → Request
  git_request command = record {
    command = command;
    workspace = s.policy.workspace;
    cwd = s.policy.workspace;
    allow_write = false;
    allow_network = false;
    env = safe_env;
    timeout = min s.policy.max_command_seconds 30;
    max_output_bytes = s.policy.max_output_bytes;
  }

  unfoldable pub git_answer : BoundedProcessResult × String → Answer
  git_answer (completed, backend) = (
    completed.stdout,
    obj (
        field "risk" (text "READ")
          (field "sandbox" (text backend) (field "exit_code" (int completed.returncode) end))),
  )

  -- _run_curated_git, and the answer of the tool
  unfoldable pub run_curated_git : List String → World → Result Answer × World
  run_curated_git command w =
      then_do (run_sandboxed (git_request command) w) (λ done u. (ok (git_answer done), u))

  -- _git_status
  unfoldable pub git_status : World → Result Answer × World
  git_status w = run_curated_git ("git" ∷ "status" ∷ "--short" ∷ "--branch" ∷ []) w

  unfoldable pub diff_path : Option String → Result (List String)
  diff_path none = ok []
  diff_path (some path_value) = do
    safe ← resolve_path s.resolve s.policy path_value false
    rel ← relative s safe
    ok ("--" ∷ rel ∷ [])

  unfoldable pub diff_command : Fields → Result (List String)
  diff_command args = do
    staged ← staged_flag (get "staged" args)
    path_value ← optional_path (get "path" args)
    only ← diff_path path_value
    ok (("git" ∷ "diff" ∷ "--no-ext-diff" ∷ []) ++ (if staged then "--cached" ∷ [] else []) ++ only)

  -- _git_diff
  unfoldable pub git_diff : Fields → World → Result Answer × World
  git_diff args w = elim (diff_command args) [
    | err e ↦ (err e, w)
    | ok command ↦ run_curated_git command w
  ]
