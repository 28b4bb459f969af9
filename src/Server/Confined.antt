-- ===== src/Server/Confined.antt =====
-- What every tool of src/gpthands/server.py leaves alone.
use gpthands.Prelude.{
  String, Bool, true, false, Option, List, ◌≡◌, refl, sym, [], ◌∷◌, ap, ◌∙◌, arith, ok, err, ◌=?◌,
}
use gpthands.Prelude.Errors.{Result}
use gpthands.Json.{Json, Fields, get}
use gpthands.Policy.Defs.{FilePath}
use gpthands.Policy.Paths.{inside}
use gpthands.Risk.{write}
use gpthands.Sandbox.Defs.{Request, SandboxPlan, plan}
use gpthands.Sandbox.Contained.{IsBackend, plan-IsBackend}
use gpthands.SafeWrite.Stable.{Disk}
use gpthands.SafeWrite.Complete.{if-intro}
use gpthands.SafeWrite.Placed.{stable_atomic_write_confined}
use gpthands.Server.World.{World, Surroundings, then_do, Answer}
use gpthands.Server.Approve.{require_approval}
use gpthands.Server.Granted.{Keeps, require_approval-Keeps}
use gpthands.Server.Command.{
  plan_command, command_request, disk_after, run_sandboxed, run_command, run_curated_git,
  git_request, git_status, diff_command, git_diff,
}
use gpthands.Server.Edit.{
  Edit, preview_edit, plan_apply, atomic_write, apply_planned, apply_edit, plan_write, write_file,
}
use gpthands.Server.Call.{dispatch}

module _ (s : Surroundings) where
  -- A path outside the workspace and outside the two folders that sandbox-exec's profile opens.
  pub record IsOutside (path : FilePath) : Type 0 where
    pub workspace : inside s.policy.workspace path ≡ false
    pub home : inside s.isolated_home path ≡ false
    pub scratch : inside ("private" ∷ "tmp" ∷ []) path ≡ false

  -- The policy requires the sandbox, there is no AppContainer, and bubblewrap and sandbox-exec, started by
  -- the program's arguments for a request in the workspace, change nothing outside.
  pub record IsSandboxed : Type 0 where
    pub required : s.policy.require_os_sandbox ≡ true
    pub no_container : s.machine.appcontainer_available ≡ false
    pub confined :
        (r : Request) (p : SandboxPlan) (d : Disk) (path : FilePath)
        → r.workspace ≡ s.policy.workspace
        → IsBackend s.machine s.isolated_home r p
        → IsOutside path
        → s.effect p d path ≡ d path

  -- The log is the same, and so is all that stands outside if sandboxed children change nothing there.
  pub record Stays (w v : World) : Type 0 where
    pub same_log : v.log ≡ w.log
    pub same_outside : IsSandboxed → (path : FilePath) → IsOutside path → v.disk path ≡ w.disk path

  Staying : World → Result Answer × World → Type 0
  Staying w r = Stays w r.1

  Stays-refl : (w : World) → Stays w w
  Stays-refl w = record { same_log = refl; same_outside = λ boxed path out. refl }

  Stays-trans : (w v u : World) → Stays w v → Stays v u → Stays w u
  Stays-trans w v u h k = record {
    same_log = k.same_log ∙ h.same_log;
    same_outside = λ boxed path out. k.same_outside boxed path out ∙ h.same_outside boxed path out;
  }

  then_do-Stays {ℓ κ} :
      {A : Type ℓ} {B : Type κ} (w : World) (first : Result A × World)
      (rest : A → World → Result B × World)
      → Stays w first.1
      → ((a : A) (v : World) → Stays v (rest a v).1)
      → Stays w (then_do first rest).1
  then_do-Stays w (err e, v) rest h k = h
  then_do-Stays w (ok a, v) rest h k = Stays-trans w v _ h (k a v)

  Stays-Keeps : (w v : World) → Keeps w v → Stays w v
  Stays-Keeps w v h = record {
    same_log = h.same_log;
    same_outside = λ boxed path out. ap (λ d. d path) h.same_disk;
  }

  require_approval-Stays :
      (token : Option Json) (risk : _) (hash : String) (w : World)
      → Stays w (require_approval s token risk hash w).1
  require_approval-Stays token risk hash w =
      Stays-Keeps w _ (require_approval-Keeps s token risk hash w)

  atomic_write-Stays :
      (path : FilePath) (content : String) (overwrite : Bool) (w : World)
      → Stays w (atomic_write s path content overwrite w).1
  unfolding atomic_write
  atomic_write-Stays path content overwrite w = record {
    same_log = refl;
    same_outside = λ boxed at out.
        stable_atomic_write_confined s.resolve s.policy s.host path content overwrite w.disk at
          out.workspace;
  }

  preview_edit-Stays : (args : Fields) (w : World) → Stays w (preview_edit s args w).1
  unfolding preview_edit
  preview_edit-Stays args w = record {
    same_log = ground arith;
    same_outside = λ boxed path out. ground arith;
  }

  apply_planned-Stays :
      (token : Option Json) (e : Edit) (w : World) → Stays w (apply_planned s token e w).1
  unfolding apply_planned
  apply_planned-Stays token e w =
      then_do-Stays w _ _ (require_approval-Stays token write e.preview_id w) (λ granted v.
        then_do-Stays v (atomic_write s e.path e.new_content true v) _
          (atomic_write-Stays e.path e.new_content true v)
          (λ written u. record { same_log = refl; same_outside = λ boxed path out. refl }))

  -- A plan that fails changes nothing.
  planned-Stays {ℓ} :
      {A : Type ℓ} (p : Result A) (w : World) (rest : A → Result Answer × World)
      → ((a : A) → Stays w (rest a).1)
      → Stays w (elim p as (λ x. Result Answer × World) [ err e ↦ (err e, w) | ok a ↦ rest a ]).1
  planned-Stays (err e) w rest h = Stays-refl w
  planned-Stays (ok a) w rest h = h a

  apply_edit-Stays : (args : Fields) (w : World) → Stays w (apply_edit s args w).1
  unfolding apply_edit
  apply_edit-Stays args w =
      planned-Stays (plan_apply s args w) w (λ e. apply_planned s (get "approval_token" args) e w)
        (λ e. apply_planned-Stays (get "approval_token" args) e w)

  write_file-Stays : (args : Fields) (w : World) → Stays w (write_file s args w).1
  unfolding write_file
  write_file-Stays args w = planned-Stays (plan_write s args w) w _ (λ f.
      then_do-Stays w (require_approval s (get "approval_token" args) f.risk f.action w) _
        (require_approval-Stays (get "approval_token" args) f.risk f.action w)
        (λ granted v.
          then_do-Stays v (atomic_write s f.path f.content f.overwrite v) _
            (atomic_write-Stays f.path f.content f.overwrite v) (λ written u. Stays-refl u)))

  disk_after-outside :
      (boxed : IsSandboxed) (r : Request) (answer : Result SandboxPlan) (d : Disk) (path : FilePath)
      → r.workspace ≡ s.policy.workspace
      → plan s.machine true s.isolated_home r ≡ answer
      → IsOutside path
      → disk_after s answer d path ≡ d path
  unfolding disk_after
  disk_after-outside boxed r (err e) d path here planned out = refl
  disk_after-outside boxed r (ok p) d path here planned out =
      boxed.confined r p d path here (plan-IsBackend s.machine s.isolated_home r p planned) out

  run_sandboxed-Stays :
      (r : Request) (w : World) → r.workspace ≡ s.policy.workspace → Stays w (run_sandboxed s r w).1
  unfolding run_sandboxed
  run_sandboxed-Stays r w here = record {
    same_log = refl;
    same_outside = λ boxed path out.
        disk_after-outside boxed r (plan s.machine s.policy.require_os_sandbox s.isolated_home r)
          w.disk path here
          (ap (λ required. plan s.machine required s.isolated_home r) (sym boxed.required)) out;
  }

  run_command-Stays : (args : Fields) (w : World) → Stays w (run_command s args w).1
  unfolding run_command
  run_command-Stays args w = planned-Stays (plan_command s args w) w _ (λ c.
      then_do-Stays w (require_approval s (get "approval_token" args) c.risk c.action w) _
        (require_approval-Stays (get "approval_token" args) c.risk c.action w)
        (λ granted v.
          then_do-Stays v (run_sandboxed s (command_request s c) v) _
            (run_sandboxed-Stays (command_request s c) v (unfold command_request in refl))
            (λ done u. Stays-refl u)))

  run_curated_git-Stays :
      (command : List String) (w : World) → Stays w (run_curated_git s command w).1
  unfolding run_curated_git
  run_curated_git-Stays command w =
      then_do-Stays w _ _
        (run_sandboxed-Stays (git_request s command) w (unfold git_request in refl))
        (λ done u. Stays-refl u)

  git_diff-Stays : (args : Fields) (w : World) → Stays w (git_diff s args w).1
  unfolding git_diff
  git_diff-Stays args w =
      planned-Stays (diff_command s args) w (λ command. run_curated_git s command w)
        (λ command. run_curated_git-Stays command w)

  git_status-Stays : (w : World) → Stays w (git_status s w).1
  unfolding git_status
  git_status-Stays w = run_curated_git-Stays _ w

  pub dispatch-Stays :
      (name : String) (args : Fields) (w : World) → Stays w (dispatch s name args w).1
  unfolding dispatch Staying
  dispatch-Stays name args w =
      if-intro (Staying w) (name =? "workspace_info") _ _ (λ e. Stays-refl w)
        (λ e.
          if-intro (Staying w) (name =? "read_file") _ _ (λ e. Stays-refl w)
            (λ e.
              if-intro (Staying w) (name =? "list_dir") _ _ (λ e. Stays-refl w)
                (λ e.
                  if-intro (Staying w) (name =? "grep") _ _ (λ e. Stays-refl w)
                    (λ e.
                      if-intro (Staying w) (name =? "write_file") _ _ (λ e. write_file-Stays args w)
                        (λ e.
                          if-intro (Staying w) (name =? "preview_edit") _ _
                            (λ e. preview_edit-Stays args w)
                            (λ e.
                              if-intro (Staying w) (name =? "apply_edit") _ _
                                (λ e. apply_edit-Stays args w)
                                (λ e.
                                  if-intro (Staying w) (name =? "run_command") _ _
                                    (λ e. run_command-Stays args w)
                                    (λ e.
                                      if-intro (Staying w) (name =? "git_status") _ _
                                        (λ e. git_status-Stays w)
                                        (λ e.
                                          if-intro (Staying w) (name =? "git_diff") _ _
                                            (λ e. git_diff-Stays args w)
                                            (λ e. Stays-refl w))))))))))
