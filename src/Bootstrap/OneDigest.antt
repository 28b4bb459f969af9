-- ===== src/Bootstrap/OneDigest.antt =====
-- A version of the program is one wheel for good, in src/scripts/release_bootstrap.py.
use mathlib.Core.Path.{subst}
use gpthands.Prelude.{String, List, [], ◌∷◌, some, ◌≡◌, sym, ap, ◌∙◌, arith, ok}
use gpthands.Json.{Json, Fields}
use gpthands.Bootstrap.Wheel.{Wheel, normalize_sha256, inspect_wheel}
use gpthands.Bootstrap.Defs.{Release, Site, Host, find_release}
use gpthands.Bootstrap.Bound.{
  IsBound, place_release-IsBound, place_release-old, load_release_info-digest,
}
use gpthands.Bootstrap.Install.{install, place_release}
use gpthands.Bootstrap.Commands.{Command, run_command}
use gpthands.Bootstrap.Kept.{
  made, IsInstalled, install-IsInstalled, make_current-releases, run_command-keeps,
  accept_wheel-normal,
}

module _ (str_of : Json → String) (launcher_path : String) where
  -- The installation after some commands, each under what the operating system answers to it.
  abbrev pub after_commands : List (Host × Command) → Site → Site
  after_commands [] s = s
  after_commands ((h, c) ∷ cs) s = after_commands cs (run_command str_of launcher_path h c s).1

  after_commands-keeps :
      (cs : List (Host × Command)) (s : Site) (version : String) (r : Release)
      → find_release version s.releases ≡ some r
      → find_release version (after_commands cs s).releases ≡ some r
  after_commands-keeps [] s version r found = found
  after_commands-keeps ((h, c) ∷ cs) s version r found =
      after_commands-keeps cs (run_command str_of launcher_path h c s).1 version r
        (run_command-keeps str_of launcher_path h c s version r found)

  pub IsInstalled-placed :
      (h : Host) (wheel : Wheel) (expected : String) (s : Site) (version digest : String)
      → IsInstalled str_of launcher_path h wheel expected s version digest
      → IsBound version digest
          (place_release h version digest (made str_of launcher_path h s)).1.releases
  IsInstalled-placed h wheel expected s version digest i =
      let normal =
        accept_wheel-normal str_of launcher_path h wheel expected s version digest i.accepted in
      place_release-IsBound h version digest (made str_of launcher_path h s) normal.1 i.placed

  IsInstalled-IsBound :
      (h : Host) (wheel : Wheel) (expected : String) (s : Site) (version digest : String)
      → IsInstalled str_of launcher_path h wheel expected s version digest
      → IsBound version digest (install str_of launcher_path h wheel expected s).1.releases
  IsInstalled-IsBound h wheel expected s version digest i =
      subst (λ (x : List (String × Release)). IsBound version digest x)
        (sym (
          ap (λ x. x.1.releases) i.result
          ∙ make_current-releases str_of launcher_path h version digest i.manifest _))
        (IsInstalled-placed h wheel expected s version digest i)

  -- An install of a version whose folder is bound to a digest returns for a wheel of that digest only.
  install-digest :
      (h : Host) (wheel : Wheel) (expected : String) (s : Site) (version digest old : String)
      → normalize_sha256 old ≡ ok old
      → IsBound version old s.releases
      → IsInstalled str_of launcher_path h wheel expected s version digest
      → old ≡ wheel.sha256
  install-digest h wheel expected s version digest old n b i =
      let normal =
        accept_wheel-normal str_of launcher_path h wheel expected s version digest i.accepted in
      let loaded =
        (place_release-old h version digest (made str_of launcher_path h s) b.release b.found).1
          i.placed in
      load_release_info-digest b.release version old digest b.info loaded.0 n normal.1 b.loads
        loaded.1
      ∙ normal.0

  pub same_version :
      (wheel : Wheel) (name name' version version' : String)
      → inspect_wheel wheel ≡ ok (name, version)
      → inspect_wheel wheel ≡ ok (name', version')
      → version ≡ version'
  same_version wheel name name' version version' h h' = ground arith

  -- Once an install has returned, whatever commands follow, whether they return or raise and whatever
  -- the operating system answers to them, an install of the same version returns only for a wheel with
  -- the same SHA-256.
  pub install_once :
      (h h' : Host) (wheel wheel' : Wheel) (expected expected' : String) (s : Site)
      (cs : List (Host × Command)) (name name' version : String) (m m' : Fields)
      → inspect_wheel wheel ≡ ok (name, version)
      → inspect_wheel wheel' ≡ ok (name', version)
      → (install str_of launcher_path h wheel expected s).0 ≡ ok m
      → (install str_of launcher_path h' wheel' expected'
          (after_commands cs (install str_of launcher_path h wheel expected s).1)).0
        ≡ ok m'
      → wheel.sha256 ≡ wheel'.sha256
  install_once h h' wheel wheel' expected expected' s cs name name' version m m' v v' first second =
      let (version0, digest, i) =
        install-IsInstalled str_of launcher_path h wheel expected s m first in
      let s' = after_commands cs (install str_of launcher_path h wheel expected s).1 in
      let (version1, digest', i') =
        install-IsInstalled str_of launcher_path h' wheel' expected' s' m' second in
      let (same, normal, (name0, v0)) =
        accept_wheel-normal str_of launcher_path h wheel expected s version0 digest i.accepted in
      let (same', normal', (name1, v1)) =
        accept_wheel-normal str_of launcher_path h' wheel' expected' s' version1 digest'
          i'.accepted in
      let agree : version0 ≡ version1 =
        same_version wheel name0 name version0 version v0 v
        ∙ sym (same_version wheel' name1 name' version1 version v1 v') in
      let b = IsInstalled-IsBound h wheel expected s version0 digest i in
      let kept : IsBound version0 digest s'.releases = record {
        release = b.release;
        found = after_commands-keeps cs _ version0 b.release b.found;
        info = b.info;
        loads = b.loads;
      } in
      sym same
      ∙ install-digest h' wheel' expected' s' version1 digest' digest normal
          (subst (λ x. IsBound x digest s'.releases) agree kept) i'
