-- ===== src/Bootstrap/Kept.antt =====
-- What the commands of src/scripts/release_bootstrap.py leave of the release folders.
use mathlib.Core.Path.{subst}
use gpthands.Prelude.{
  String, true, some, List, ◌≡◌, refl, sym, ap, ◌∙◌, arith, Result-cases, inl, inr, ok,
}
use gpthands.Prelude.Errors.{Result}
use gpthands.Json.{Json, Fields, get}
use gpthands.Bootstrap.Wheel.{Wheel, normalize_sha256, verify_wheel_sha256, inspect_wheel}
use gpthands.Bootstrap.Digest.{verify_wheel_sha256-normal}
use gpthands.Bootstrap.Defs.{Release, Site, Host, find_release, digests_of}
use gpthands.Bootstrap.Bound.{find_release-place_release}
use gpthands.Bootstrap.Install.{
  place_release, write_launcher, write_manifest, point_at, make_current, install_release, open_site,
  install, accept_wheel,
}
use gpthands.Bootstrap.Commands.{
  Command, install_wheel, roll_back, show_status, remove, run_command, rollback, plan_rollback,
  history_before, remove_launcher, remove_manifest, uninstall,
}

module _ (launcher_path : String) (h : Host) where
  pub point_at-releases :
      (version : String) (history : List String) (digests : Fields) (s : Site)
      → (point_at launcher_path h version history digests s).1.releases ≡ s.releases
  unfolding point_at write_launcher write_manifest
  point_at-releases version history digests s = ground arith

  rollback-releases : (s : Site) → (rollback launcher_path h s).1.releases ≡ s.releases
  unfolding rollback
  rollback-releases s = elim (Result-cases (plan_rollback h s)) [
    | inl (e, fails) ↦ rw (fails, rollback) refl
    | inr ((previous, history, manifest), planned) ↦
        rw (planned, rollback)
          (point_at-releases previous (history_before (get "current" manifest) previous history)
            (digests_of manifest) s)
  ]

uninstall-releases : (h : Host) (s : Site) → (uninstall h s).1.releases ≡ s.releases
unfolding uninstall remove_launcher remove_manifest
uninstall-releases h s = ground arith

module _ (str_of : Json → String) (launcher_path : String) (h : Host) where
  abbrev pub made : Site → Site
  made s = record s { root_exists = true }

  -- What an install has been through that has returned, for the version and the digest of its wheel.
  pub record IsInstalled (wheel : Wheel) (expected : String) (s : Site) (version digest : String)
      : Type 0 where
    pub manifest : Fields
    pub accepted : accept_wheel h wheel expected s ≡ ok (version, digest)
    pub opened_site : open_site version digest (made s) ≡ ok manifest
    pub placed : (place_release h version digest (made s)).0 ≡ ok tt
    pub result :
        install str_of launcher_path h wheel expected s
        ≡ make_current str_of launcher_path h version digest manifest
            (place_release h version digest (made s)).1

  install_release-placed :
      (version digest : String) (s : Site) (m : Fields)
      → (install_release str_of launcher_path h version digest s).0 ≡ ok m
      → (manifest : Fields) × (open_site version digest s ≡ ok manifest)
        × ((place_release h version digest s).0 ≡ ok tt)
        × (install_release str_of launcher_path h version digest s
            ≡ make_current str_of launcher_path h version digest manifest
                (place_release h version digest s).1)
  unfolding install_release
  install_release-placed version digest s m returned =
      elim (Result-cases (open_site version digest s)) [
        | inl (e, fails) ↦ absurd (ground arith)
        | inr (manifest, opens) ↦ elim (Result-cases (place_release h version digest s).0) [
          | inl (e, fails) ↦ absurd (ground arith)
          | inr (u, placed) ↦ (manifest, opens, placed, rw (opens, placed, install_release) refl)
        ]
      ]

  pub install-IsInstalled :
      (wheel : Wheel) (expected : String) (s : Site) (m : Fields)
      → (install str_of launcher_path h wheel expected s).0 ≡ ok m
      → (version : String) × (digest : String) × IsInstalled wheel expected s version digest
  unfolding install
  install-IsInstalled wheel expected s m returned =
      elim (Result-cases (accept_wheel h wheel expected s)) [
        | inl (e, fails) ↦ absurd (ground arith)
        | inr ((version, digest), accepted) ↦
            let after : install str_of launcher_path h wheel expected s
                ≡ install_release str_of launcher_path h version digest (made s) =
              rw (accepted, install) refl in
            let parts =
              install_release-placed version digest (made s) m
                (sym (ap (λ (r : Result Fields × Site). r.0) after) ∙ returned) in
            (
              version,
              digest,
              record {
                manifest = parts.0;
                accepted = accepted;
                opened_site = parts.1;
                placed = parts.2;
                result = after ∙ parts.3;
              },
            )
      ]

  pub make_current-releases :
      (version digest : String) (manifest : Fields) (s : Site)
      → (make_current str_of launcher_path h version digest manifest s).1.releases ≡ s.releases
  unfolding make_current
  make_current-releases version digest manifest s = point_at-releases launcher_path h version _ _ s

  install_release-keeps :
      (version digest : String) (s : Site) (other : String) (old : Release)
      → find_release other s.releases ≡ some old
      → find_release other (install_release str_of launcher_path h version digest s).1.releases
        ≡ some old
  unfolding install_release
  install_release-keeps version digest s other old found =
      elim (Result-cases (open_site version digest s)) [
        | inl (e, fails) ↦ rw (fails, install_release) found
        | inr (manifest, opens) ↦
            let kept = find_release-place_release h version digest s other old found in
            elim (Result-cases (place_release h version digest s).0) [
              | inl (e, fails) ↦ rw (opens, fails, install_release) kept
              | inr (u, placed) ↦
                  rw
                    (
                      opens,
                      placed,
                      install_release,
                      make_current-releases version digest manifest
                          (place_release h version digest s).1,
                    )
                    kept
            ]
      ]

  -- A folder that is there is still there, as it was, however an install ends.
  install-keeps :
      (wheel : Wheel) (expected : String) (s : Site) (other : String) (old : Release)
      → find_release other s.releases ≡ some old
      → find_release other (install str_of launcher_path h wheel expected s).1.releases ≡ some old
  unfolding install
  install-keeps wheel expected s other old found =
      elim (Result-cases (accept_wheel h wheel expected s)) [
        | inl (e, fails) ↦ rw (fails, install) found
        | inr ((version, digest), accepted) ↦
            rw (accepted, install) (install_release-keeps version digest (made s) other old found)
      ]

  pub run_command-keeps :
      (c : Command) (s : Site) (other : String) (old : Release)
      → find_release other s.releases ≡ some old
      → find_release other (run_command str_of launcher_path h c s).1.releases ≡ some old
  unfolding run_command
  run_command-keeps (install_wheel wheel expected) s other old found =
      install-keeps wheel expected s other old found
  run_command-keeps roll_back s other old found = rw (rollback-releases launcher_path h s) found
  run_command-keeps show_status s other old found = found
  run_command-keeps remove s other old found = rw (uninstall-releases h s) found

  pub accept_wheel-normal :
      (wheel : Wheel) (expected : String) (s : Site) (version digest : String)
      → accept_wheel h wheel expected s ≡ ok (version, digest)
      → (digest ≡ wheel.sha256)
        × (normalize_sha256 digest ≡ ok digest)
        × ((name : String) × (inspect_wheel wheel ≡ ok (name, version)))
  unfolding accept_wheel
  accept_wheel-normal wheel expected s version digest accepted =
      elim (Result-cases (verify_wheel_sha256 wheel expected)) [
        | inl (e, fails) ↦ absurd (ground arith)
        | inr (d, verified) ↦ elim (Result-cases (inspect_wheel wheel)) [
          | inl (e, fails) ↦ absurd (ground arith)
          | inr ((name, v), inspected) ↦
              let same : (v ≡ version) × (d ≡ digest) = ground arith in
              let normal = verify_wheel_sha256-normal wheel expected d verified in
              (
                sym same.1 ∙ normal.0,
                subst (λ x. normalize_sha256 x ≡ ok x) same.1 normal.1,
                (name, subst (λ x. inspect_wheel wheel ≡ ok (name, x)) same.0 inspected),
              )
        ]
      ]
