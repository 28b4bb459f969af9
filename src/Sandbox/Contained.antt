-- ===== src/Sandbox/Contained.antt =====
-- What a run of src/gpthands/sandbox.py that returns was contained in.
use mathlib.Core.Path.{subst}
use gpthands.Prelude.{
  String, Bool, true, false, Option, none, some, ◌∷◌, ◌=?◌, ◌≡◌, refl, ap, ◌∙◌, arith, ok, err,
  Bool-cases, Result-cases, inl, inr, string_discrete, lower,
}
use gpthands.Prelude.Errors.{Result, error}
use gpthands.Policy.Defs.{FilePath}
use gpthands.Process.Defs.{BoundedProcessResult, run_bounded_process}
use gpthands.Sandbox.Defs.{
  SandboxPlan, Request, Machine, linux_bwrap, macos_profile, as_sandbox_error, proc_env,
  without_backend, linux_plan, darwin_plan, windows_plan, plan, start, run,
}

module _ (m : Machine) (isolated_home : FilePath) (r : Request) where
  abbrev bwrap_plan : String → SandboxPlan
  bwrap_plan bwrap = record {
    backend = "bubblewrap";
    argv = linux_bwrap m.exists bwrap r;
    profile_text = none;
  }

  abbrev seatbelt_plan : String → SandboxPlan
  seatbelt_plan sandbox_exec = record {
    backend = "sandbox-exec";
    argv = sandbox_exec ∷ "-p" ∷ macos_profile r isolated_home ∷ r.command;
    profile_text = some (macos_profile r isolated_home);
  }

  abbrev container_plan : SandboxPlan
  container_plan = record {
    backend = "windows-appcontainer";
    argv = r.command;
    profile_text = none;
  }

  -- The plans of the three sandboxes, with the arguments that each is started by.
  pub data IsBackend : SandboxPlan → Type 0 where
    by_bubblewrap : (bwrap : String) → m.which "bwrap" ≡ some bwrap → IsBackend (bwrap_plan bwrap)
    by_seatbelt :
        (tool : String) → m.which "sandbox-exec" ≡ some tool → IsBackend (seatbelt_plan tool)
    by_container : m.appcontainer_available ≡ true → IsBackend container_plan

  refused : (p : SandboxPlan) → without_backend m true isolated_home r ≡ ok p → IsBackend p
  unfolding without_backend
  refused p h = absurd (ground arith)

  linux_plan-IsBackend :
      (found : Option String) (p : SandboxPlan)
      → m.which "bwrap" ≡ found
      → linux_plan m true isolated_home found r ≡ ok p
      → IsBackend p
  unfolding linux_plan
  linux_plan-IsBackend none p e h = refused p h
  linux_plan-IsBackend (some bwrap) p e h =
      let same : bwrap_plan bwrap ≡ p = ground arith in subst IsBackend same (by_bubblewrap bwrap e)

  darwin_plan-IsBackend :
      (found : Option String) (p : SandboxPlan)
      → m.which "sandbox-exec" ≡ found
      → darwin_plan m true isolated_home found r ≡ ok p
      → IsBackend p
  unfolding darwin_plan
  darwin_plan-IsBackend none p e h = refused p h
  darwin_plan-IsBackend (some tool) p e h =
      let same : seatbelt_plan tool ≡ p = ground arith in subst IsBackend same (by_seatbelt tool e)

  windows_plan-IsBackend :
      (available : Bool) (p : SandboxPlan)
      → m.appcontainer_available ≡ available
      → windows_plan m true isolated_home available r ≡ ok p
      → IsBackend p
  unfolding windows_plan
  windows_plan-IsBackend false p e h = refused p h
  windows_plan-IsBackend true p e h =
      let same : container_plan ≡ p = ground arith in subst IsBackend same (by_container e)

  pub plan-IsBackend : (p : SandboxPlan) → plan m true isolated_home r ≡ ok p → IsBackend p
  unfolding plan
  plan-IsBackend p h = elim (Bool-cases (lower m.system =? "linux")) [
    | inl e ↦ linux_plan-IsBackend _ p refl (ground arith)
    | inr e ↦ elim (Bool-cases (lower m.system =? "darwin")) [
      | inl f ↦ darwin_plan-IsBackend _ p refl (ground arith)
      | inr f ↦ elim (Bool-cases (lower m.system =? "windows")) [
        | inl g ↦ windows_plan-IsBackend _ p refl (ground arith)
        | inr g ↦ refused p (ground arith)
      ]
    ]
  ]

  -- How the command was run: under bubblewrap, under sandbox-exec with the profile, or in the AppContainer.
  pub data IsContained (completed : BoundedProcessResult) : String → Type 0 where
    bubblewrap :
        (bwrap : String)
        → m.which "bwrap" ≡ some bwrap
        → run_bounded_process (linux_bwrap m.exists bwrap r) r.timeout r.max_output_bytes (
            m.child
              (linux_bwrap m.exists bwrap r)
              r.cwd
              (proc_env "bubblewrap" isolated_home r.env))
          ≡ ok completed
        → IsContained completed "bubblewrap"
    seatbelt :
        (tool : String)
        → m.which "sandbox-exec" ≡ some tool
        → run_bounded_process
            (tool ∷ "-p" ∷ macos_profile r isolated_home ∷ r.command)
            r.timeout
            r.max_output_bytes
            (m.child
              (tool ∷ "-p" ∷ macos_profile r isolated_home ∷ r.command)
              r.cwd
              (proc_env "sandbox-exec" isolated_home r.env))
          ≡ ok completed
        → IsContained completed "sandbox-exec"
    appcontainer :
        m.appcontainer_run r ≡ ok completed → IsContained completed "windows-appcontainer"

  as_sandbox_error-ok :
      (x : Result BoundedProcessResult) (completed : BoundedProcessResult)
      → as_sandbox_error x ≡ ok completed
      → x ≡ ok completed
  unfolding as_sandbox_error
  as_sandbox_error-ok (err (error kind message)) completed h = absurd (ground arith)
  as_sandbox_error-ok (ok x) completed h = h

  start-IsContained :
      (p : SandboxPlan) (completed : BoundedProcessResult)
      → IsBackend p
      → start m true isolated_home p r ≡ ok completed
      → IsContained completed p.backend
  unfolding start string_discrete
  start-IsContained _ completed (by_bubblewrap bwrap e) h =
      bubblewrap bwrap e (as_sandbox_error-ok _ completed h)
  start-IsContained _ completed (by_seatbelt tool e) h =
      seatbelt tool e (as_sandbox_error-ok _ completed h)
  start-IsContained _ completed (by_container e) h =
      appcontainer (as_sandbox_error-ok _ completed h)

  -- Where the OS sandbox is required, a run that returns has run the command under bubblewrap with the
  -- arguments of _linux_bwrap, under sandbox-exec with the profile, or in the AppContainer, and
  -- returns what that run gave; it never runs the command on its own.
  pub run-IsContained :
      (completed : BoundedProcessResult) (backend : String)
      → run m true isolated_home r ≡ ok (completed, backend)
      → IsContained completed backend
  unfolding run
  run-IsContained completed backend h = elim (Result-cases (plan m true isolated_home r)) [
    | inl (x, f) ↦ absurd (ground arith)
    | inr (p, f) ↦ elim (Result-cases (start m true isolated_home p r)) [
      | inl (x, g) ↦ absurd (ground arith)
      | inr (done, g) ↦
          let same : done ≡ completed = ground arith in
          let named : p.backend ≡ backend = ground arith in
          subst (IsContained completed) named
            (start-IsContained p completed (plan-IsBackend p f) (g ∙ ap ok same))
    ]
  ]
