-- ===== src/Bootstrap/Install.antt =====
-- `install` of src/scripts/release_bootstrap.py.
use gpthands.Prelude.{
  String, Bool, true, false, not, ◌&&◌, Option, none, some, List, [], ◌∷◌, ◌++◌, ◌=?◌,
  if◌then◌else◌, is_empty, bootstrap_error, os_error, ok, err, raise, ◌>>=◌, ◌>>◌,
}
use gpthands.Prelude.Errors.{Result, require}
use gpthands.Json.{pos, Json, int, text, arr, obj, Fields, end, field, get, put}
use gpthands.State.{StateFile}
use gpthands.Server.Handle.{truthy}
use gpthands.Server.Read.{texts_of}
use gpthands.Bootstrap.Wheel.{Wheel, normalize_sha256, verify_wheel_sha256, inspect_wheel}
use gpthands.Bootstrap.Defs.{
  Release, Site, Writing, fails, fails_late, done, Host, refuse_symlink, find_release,
  load_manifest, digests_of, digest_of, history_of, last_ten, without, sort_keys, python_in,
  launcher_text, release_info, load_release_info,
}

-- A file that has been written.
abbrev pub holding : Fields → StateFile
holding stored = record {
  exists = true;
  symlink = false;
  is_file = true;
  content = some (obj stored);
}

-- _smoke_release, and the result of pip
unfoldable pub succeeded : Result Bool → String → Result (Unit {0})
succeeded outcome message = do zero ← outcome; require zero bootstrap_error message

unfoldable pub smoke_release : Host → String → Result (Unit {0})
smoke_release h version = succeeded (h.smoke version) "installed release smoke test failed"

abbrev pub new_release : Fields → Release
new_release info = record { is_symlink = false; is_dir = true; marker = holding info }

-- What is done in a new folder, up to its marker.
unfoldable pub build_release : Host → String → String → Result Release
build_release h version digest = do
  h.venv
  succeeded h.pip "offline wheel install failed"
  smoke_release h version
  info ← release_info version digest
  require h.marker_write os_error "cannot write the release integrity marker"
  ok (new_release info)

unfoldable pub add_release : String → Release → Site → Site
add_release version r s = record s { releases = (version, r) ∷ s.releases }

-- The folder of the version, built or checked. A folder that cannot be finished is removed again.
unfoldable pub place_release : Host → String → String → Site → Result (Unit {0}) × Site
place_release h version digest s = elim (find_release version s.releases) [
  | some r ↦ (load_release_info (some r) version digest >>= λ info. smoke_release h version, s)
  | none ↦
      if not h.makes_target
      then (raise os_error "mkdir", s)
      else elim (build_release h version digest) [
        | err e ↦ (err e, s)
        | ok r ↦ (ok tt, add_release version r s)
      ]
]

-- _secure_atomic_text: what raises, and whether the file is replaced
unfoldable pub atomic_text : Bool → Bool → Writing → Result (Unit {0}) × Bool
atomic_text is_symlink parent_symlink writing =
    elim (refuse_symlink is_symlink >> refuse_symlink parent_symlink) [
      | err e ↦ (err e, false)
      | ok _ ↦ elim writing [
        | fails ↦ (raise os_error "cannot write the managed file", false)
        | fails_late ↦ (raise os_error "chmod", true)
        | done ↦ (ok tt, true)
      ]
    ]

unfoldable pub write_launcher : Host → String → Site → Result (Unit {0}) × Site
write_launcher h content s =
    let written = atomic_text s.launcher.is_symlink s.bin_symlink h.launcher_write in
    (
      written.0,
      if written.1
          then record s {
            launcher = record { exists = true; is_symlink = false; content = content };
          }
          else s,
    )

-- _write_manifest
unfoldable pub write_manifest : Host → Fields → Site → Result (Unit {0}) × Site
write_manifest h manifest s =
    let written = atomic_text s.manifest.symlink s.root_symlink h.manifest_write in
    (written.0, if written.1 then record s { manifest = holding manifest } else s)

abbrev pub manifest_of : String → List String → Fields → String → Fields
manifest_of version history digests launcher = field "schema" (int (pos 1)) (
    field "current" (text version) (
      field "history" (arr (texts_of history))
        (field "digests" (obj (sort_keys digests)) (field "launcher" (text launcher) end))))

unfoldable pub refuse_release : Option Release → Result (Unit {0})
refuse_release none = ok tt
refuse_release (some r) = refuse_symlink r.is_symlink

-- A digest that the manifest records for the version has to be the wheel's.
unfoldable pub check_recorded : Option String → String → Result (Unit {0})
check_recorded none digest = ok tt
check_recorded (some recorded) digest = do
  normal ← normalize_sha256 recorded
  require (normal =? digest) bootstrap_error
      "manifest already binds this version to a different wheel digest"

-- The manifest that an install starts from.
unfoldable pub open_site : String → String → Site → Result Fields
open_site version digest s = do
  refuse_symlink s.releases_symlink
  refuse_release (find_release version s.releases)
  manifest ← load_manifest s.manifest
  check_recorded (digest_of version (digests_of manifest)) digest
  ok manifest

module _ (str_of : Json → String) where
  -- The history, with the version that was current at its end.
  unfoldable pub history_after : Option Json → String → List String → List String
  history_after none version history = last_ten history
  history_after (some (text current)) version history = last_ten (
      if not (is_empty current) && not (current =? version)
      then without current history ++ current ∷ []
      else history)
  history_after (some current) version history =
      last_ten (if truthy current then history ++ str_of current ∷ [] else history)

module _ (h : Host) where
  -- The version and the digest of a wheel that may be installed, once the root has been made.
  unfoldable pub accept_wheel : Wheel → String → Site → Result (String × String)
  accept_wheel wheel expected s = do
    digest ← verify_wheel_sha256 wheel expected
    (name, version) ← inspect_wheel wheel
    refuse_symlink s.root_symlink
    refuse_symlink s.bin_symlink
    require h.makes_dirs os_error "mkdir"
    ok (version, digest)

module _ (launcher_path : String) (h : Host) where
  -- The launcher is pointed at the version, and then the manifest is written.
  unfoldable pub point_at : String → List String → Fields → Site → Result Fields × Site
  point_at version history digests s =
      let manifest = manifest_of version history digests launcher_path in
      let (launched, s') = write_launcher h (launcher_text (python_in s.root version)) s in
      elim launched [
        | err e ↦ (err e, s')
        | ok _ ↦
            let (recorded, s'') = write_manifest h manifest s' in (recorded >> ok manifest, s'')
      ]

module _ (str_of : Json → String) (launcher_path : String) (h : Host) where
  -- What follows once the release's folder is there.
  unfoldable pub make_current : String → String → Fields → Site → Result Fields × Site
  make_current version digest manifest s =
      point_at launcher_path h version
        (history_after str_of (get "current" manifest) version (history_of manifest))
        (put version (text digest) (digests_of manifest)) s

  unfoldable pub install_release : String → String → Site → Result Fields × Site
  install_release version digest s = elim (open_site version digest s) [
    | err e ↦ (err e, s)
    | ok manifest ↦
        let (placed, s') = place_release h version digest s in
        elim placed [ err e ↦ (err e, s') | ok _ ↦ make_current version digest manifest s' ]
  ]

  unfoldable pub install : Wheel → String → Site → Result Fields × Site
  install wheel expected s = elim (accept_wheel h wheel expected s) [
    | err e ↦ (err e, s)
    | ok (version, digest) ↦ install_release version digest (record s { root_exists = true })
  ]
