-- ===== src/Sandbox/Tests.antt =====
-- `git status` under bubblewrap.
use gpthands.Prelude.{
  true, false, some, [], ◌∷◌, ◌≡◌, refl, ok, elem, has_prefix, string_discrete, lower, strip,
  is_empty, take_chars,
}
use gpthands.Json.{pos}
use gpthands.Process.Defs.{BoundedProcessResult, run_bounded_process, drain_stdout}
use gpthands.Sandbox.Defs.{
  Request, Machine, bwrap_options, linux_bwrap, linux_plan, plan, start, as_sandbox_error,
  check_setup, run,
}
use gpthands.Sandbox.Contained.{IsContained, run-IsContained}
use gpthands.Sandbox.Bubblewrap.{until_separator, after_separator, linux_bwrap_options}

abbrev request : Request
request = record {
  command = "git" ∷ "status" ∷ [];
  workspace = "work" ∷ [];
  cwd = "work" ∷ [];
  allow_write = false;
  allow_network = false;
  env = [];
  timeout = 30;
  max_output_bytes = 100;
}

abbrev completed : BoundedProcessResult
completed = record { returncode = pos 0; stdout = "ok" }

abbrev machine : Machine
machine = record {
  system = "Linux";
  which = λ program. some "/usr/bin/bwrap";
  exists = λ path. true;
  appcontainer_available = false;
  appcontainer_run = λ r. ok completed;
  child = λ argv cwd env. record {
    pipe = true;
    in_time = true;
    chunks = "ok" ∷ [];
    drained = true;
    read_failed = false;
    returncode = pos 0;
  };
}

returned : run machine true ("tmp" ∷ []) request ≡ ok (completed, "bubblewrap")
unfolding run plan linux_plan linux_bwrap bwrap_options start as_sandbox_error run_bounded_process
    drain_stdout check_setup string_discrete lower is_empty take_chars strip
returned = refl

run-IsContained_example : IsContained machine ("tmp" ∷ []) request completed "bubblewrap"
run-IsContained_example =
    run-IsContained machine ("tmp" ∷ []) request completed "bubblewrap" returned

absolute : has_prefix "/" "/usr/bin/bwrap" ≡ true
unfolding has_prefix
absolute = refl

linux_bwrap_options_example :
    (after_separator (linux_bwrap machine.exists "/usr/bin/bwrap" request) ≡ request.command)
    × (elem "--share-net" (until_separator (linux_bwrap machine.exists "/usr/bin/bwrap" request))
        ≡ false)
    × (elem "--bind" (until_separator (linux_bwrap machine.exists "/usr/bin/bwrap" request))
        ≡ false)
    × (elem "--unshare-all" (until_separator (linux_bwrap machine.exists "/usr/bin/bwrap" request))
        ≡ true)
linux_bwrap_options_example = linux_bwrap_options machine.exists "/usr/bin/bwrap" request absolute
