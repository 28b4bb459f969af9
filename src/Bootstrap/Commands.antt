-- ===== src/Bootstrap/Commands.antt =====
-- `rollback`, `status`, `uninstall` and `main` of src/scripts/release_bootstrap.py.
use gpthands.Prelude.{
  ℕ, String, ◌<>◌, Bool, true, false, not, ◌||◌, Option, none, some, List, ◌∷◌, ◌=?◌, if◌then◌else◌,
  bootstrap_error, os_error, process_error, zip_error, ok, err, raise, ◌>>=◌, ◌>>◌,
}
use gpthands.Prelude.Errors.{Result, error, require, Kind}
use gpthands.Json.{Json, bool, text, Fields, end, field, get}
use gpthands.State.{StateFile}
use gpthands.Bootstrap.Wheel.{Wheel}
use gpthands.Bootstrap.Defs.{
  Site, Host, refuse_symlink, find_release, load_manifest, digests_of, digest_of, history_of,
  last_ten, pop_last, load_release_info,
}
use gpthands.Bootstrap.Install.{refuse_release, smoke_release, point_at, install}

-- The release to go back to, the history before it, and the manifest.
unfoldable pub previous_release : Fields → Result (String × List String)
previous_release manifest = elim (pop_last (history_of manifest)) [
  | none ↦ raise bootstrap_error "no previous GPTHands release is available for rollback"
  | some found ↦ ok found
]

unfoldable pub recorded_digest : String → Fields → Result String
recorded_digest version digests = elim (digest_of version digests) [
  | none ↦ raise bootstrap_error "rollback release has no recorded wheel digest"
  | some digest ↦ ok digest
]

-- The version that was current comes first, where it is a text.
unfoldable pub history_before : Option Json → String → List String → List String
history_before (some (text current)) previous history =
    if current =? previous then history else last_ten (current ∷ history)
history_before _ previous history = history

unfoldable pub status : Site → Result Fields
status s = do refuse_symlink s.root_symlink; load_manifest s.manifest

abbrev pub no_file : StateFile
no_file = record { exists = false; symlink = false; is_file = false; content = none }

module _ (h : Host) where
  unfoldable pub plan_rollback : Site → Result (String × List String × Fields)
  plan_rollback s = do
    require s.root_exists bootstrap_error "install root is missing"
    refuse_symlink s.root_symlink
    refuse_symlink s.bin_symlink
    manifest ← load_manifest s.manifest
    (previous, history) ← previous_release manifest
    refuse_symlink s.releases_symlink
    refuse_release (find_release previous s.releases)
    digest ← recorded_digest previous (digests_of manifest)
    info ← load_release_info (find_release previous s.releases) previous digest
    smoke_release h previous
    ok (previous, history, manifest)

  -- The launcher's part of `uninstall`: whether it was removed.
  unfoldable pub remove_launcher : Site → Result Bool × Site
  remove_launcher s =
      if not (s.launcher.exists || s.launcher.is_symlink)
      then (ok false, s)
      else elim (refuse_symlink s.launcher.is_symlink
          >> require h.unlinks_launcher os_error "unlink") [
            | err e ↦ (err e, s)
            | ok _ ↦ (
              ok true,
              record s { launcher = record { exists = false; is_symlink = false; content = "" } },
            )
          ]

  unfoldable pub remove_manifest : Bool → Site → Result Fields × Site
  remove_manifest removed s =
      let answer =
        field "launcher_removed" (bool removed)
          (field "releases_preserved" (text (s.root <> "/releases")) end) in
      if s.manifest.symlink
      then (raise bootstrap_error "refusing symlink install manifest", s)
      else if not s.manifest.exists
      then (ok answer, s)
      else if not h.unlinks_manifest
      then (raise os_error "unlink", s)
      else (ok answer, record s { manifest = no_file })

  unfoldable pub uninstall : Site → Result Fields × Site
  uninstall s = elim (refuse_symlink s.root_symlink >> refuse_symlink s.bin_symlink) [
    | err e ↦ (err e, s)
    | ok _ ↦
        let (removed, s') = remove_launcher s in
        elim removed [ err e ↦ (err e, s') | ok r ↦ remove_manifest r s' ]
  ]

module _ (launcher_path : String) (h : Host) where
  unfoldable pub rollback : Site → Result Fields × Site
  rollback s = elim (plan_rollback h s) [
    | err e ↦ (err e, s)
    | ok (previous, history, manifest) ↦
        point_at launcher_path h previous (history_before (get "current" manifest) previous history)
          (digests_of manifest) s
  ]

-- args.command with what it takes
pub data Command : Type 0 where
  install_wheel : Wheel → String → Command
  roll_back show_status remove : Command

unfoldable pub run_command : (Json → String) → String → Host → Command → Site → Result Fields × Site
run_command str_of launcher_path h (install_wheel wheel expected) s =
    install str_of launcher_path h wheel expected s
run_command str_of launcher_path h roll_back s = rollback launcher_path h s
run_command str_of launcher_path h show_status s = (status s, s)
run_command str_of launcher_path h remove s = uninstall h s

-- The exceptions that `main` answers with exit code 2; another ends the program by a traceback.
unfoldable pub is_refusal : Kind → Bool
is_refusal bootstrap_error = true
is_refusal os_error = true
is_refusal process_error = true
is_refusal zip_error = true
is_refusal _ = false

unfoldable pub exit_code : Result Fields → Option ℕ
exit_code (ok answer) = some 0
exit_code (err (error kind message)) = if is_refusal kind then some 2 else none
