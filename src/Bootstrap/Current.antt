-- ===== src/Bootstrap/Current.antt =====
-- The launcher and the manifest that `install` and `rollback` of src/scripts/release_bootstrap.py leave.
use mathlib.Core.Path.{subst}
use package.text.Mathlib.TextEquality.{eq_iff}
use gpthands.Prelude.{
  String, Bool, true, false, some, List, ◌≡◌, refl, sym, ap, ◌∙◌, arith, ◌=?◌, string_discrete,
  Option-cases, Result-cases, inl, inr, ok, if◌then◌else◌,
}
use gpthands.Prelude.Errors.{Result}
use gpthands.Json.{Json, text, Fields, end, field, get, put, as_fields, get-put}
use gpthands.ReleaseGate.Defs.{text_before}
use gpthands.Bootstrap.Wheel.{Wheel}
use gpthands.Bootstrap.Defs.{
  Release, Site, Host, find_release, load_manifest, load_release_info, digests_of, digest_of,
  sort_keys, insert_sorted, python_in, launcher_text,
}
use gpthands.Bootstrap.Bound.{IsBound}
use gpthands.Bootstrap.Install.{
  holding, atomic_text, write_launcher, write_manifest, manifest_of, point_at, make_current,
  install,
}
use gpthands.Bootstrap.Commands.{
  rollback, plan_rollback, history_before, Command, install_wheel, roll_back, show_status, remove,
  run_command, previous_release, recorded_digest,
}
use gpthands.Bootstrap.Kept.{install-IsInstalled, point_at-releases}
use gpthands.Bootstrap.OneDigest.{IsInstalled-placed}

text_before_irrefl : (s : String) → text_before s s ≡ false
unfolding text_before
text_before_irrefl String.[] = refl
text_before_irrefl (String.◌∷◌ c s) = ground (arith, text_before_irrefl s)

get-insert_sorted :
    (key other : String) (value : Json) (d : Fields)
    → get other (insert_sorted key value d) ≡ (if key =? other then some value else get other d)
unfolding get insert_sorted
get-insert_sorted key other value end = refl
get-insert_sorted key other value (field k v rest) = ground (
  arith,
  text_before_irrefl k,
  eq_iff key other,
  eq_iff k other,
  eq_iff k key,
  get-insert_sorted key other value rest,
)

get-sort_keys : (key : String) (d : Fields) → get key (sort_keys d) ≡ get key d
unfolding get sort_keys
get-sort_keys key end = refl
get-sort_keys key (field k v rest) =
    get-insert_sorted k key v (sort_keys rest)
    ∙ ap (λ x. if k =? key then some v else x) (get-sort_keys key rest)

pub digest_of-sort_keys :
    (version : String) (d : Fields) → digest_of version (sort_keys d) ≡ digest_of version d
unfolding digest_of
digest_of-sort_keys version d = rw (get-sort_keys version d, digest_of) refl

digest_of-put :
    (version digest : String) (d : Fields)
    → digest_of version (put version (text digest) d) ≡ some digest
unfolding digest_of
digest_of-put version digest d = rw (get-put version (text digest) d, digest_of) refl

-- The launcher starts the version that the manifest names as current, and that version's folder is bound
-- to the digest that the manifest records for it.
pub record IsCurrent (s : Site) (manifest : Fields) : Type 0 where
  pub version : String
  pub digest : String
  pub recorded : s.manifest ≡ holding manifest
  pub named : get "current" manifest ≡ some (text version)
  pub digest_recorded : digest_of version (digests_of manifest) ≡ some digest
  pub bound : IsBound version digest s.releases
  pub starts : s.launcher.content ≡ launcher_text (python_in s.root version)

module _ (launcher_path : String) (h : Host) where
  pub point_at-writes :
      (version : String) (history : List String) (digests : Fields) (s : Site) (m : Fields)
      → (point_at launcher_path h version history digests s).0 ≡ ok m
      → (m ≡ manifest_of version history digests launcher_path)
        × ((point_at launcher_path h version history digests s).1.manifest ≡ holding m)
        × ((point_at launcher_path h version history digests s).1.launcher.content
            ≡ launcher_text (python_in s.root version))
        × ((point_at launcher_path h version history digests s).1.root ≡ s.root)
  unfolding point_at write_launcher write_manifest atomic_text
  point_at-writes version history digests s m returned = ground arith

  manifest_digest :
      (version : String) (history : List String) (digests : Fields)
      → (get "current" (manifest_of version history digests launcher_path) ≡ some (text version))
        × (digests_of (manifest_of version history digests launcher_path) ≡ sort_keys digests)
  unfolding get digests_of as_fields string_discrete
  manifest_digest version history digests = (refl, refl)

  point_at-IsCurrent :
      (version digest : String) (history : List String) (digests : Fields) (s : Site) (m : Fields)
      → digest_of version digests ≡ some digest
      → IsBound version digest s.releases
      → (point_at launcher_path h version history digests s).0 ≡ ok m
      → IsCurrent (point_at launcher_path h version history digests s).1 m
  point_at-IsCurrent version digest history digests s m has b returned =
      let (same, recorded, starts, root) = point_at-writes version history digests s m returned in
      let (named, sorted) = manifest_digest version history digests in
      record {
        version = version;
        digest = digest;
        recorded = recorded;
        named = ap (get "current") same ∙ named;
        digest_recorded =
            ap (λ x. digest_of version (digests_of x)) same
            ∙ ap (digest_of version) sorted
            ∙ digest_of-sort_keys version digests
            ∙ has;
        bound =
            subst (λ (x : List (String × Release)). IsBound version digest x)
              (sym (point_at-releases launcher_path h version history digests s)) b;
        starts = starts ∙ ap (λ x. launcher_text (python_in x version)) (sym root);
      }

  rollback_plan :
      (s : Site) (previous : String) (history : List String) (manifest : Fields)
      → plan_rollback h s ≡ ok (previous, history, manifest)
      → (digest : String) × (digest_of previous (digests_of manifest) ≡ some digest)
        × IsBound previous digest s.releases
  unfolding plan_rollback recorded_digest
  rollback_plan s previous history manifest planned =
      elim (Result-cases (load_manifest s.manifest)) [
        | inl (e, fails) ↦ absurd (ground arith)
        | inr (m, loaded) ↦ elim (Result-cases (previous_release m)) [
          | inl (e, fails) ↦ absurd (ground arith)
          | inr ((version, before), popped) ↦
              elim (Option-cases (digest_of version (digests_of m))) [
                | inl missing ↦ absurd (ground arith)
                | inr (digest, has) ↦ elim (Option-cases (find_release version s.releases)) [
                  | inl absent ↦ absurd (unfold load_release_info in ground arith)
                  | inr (r, found) ↦
                      elim (Result-cases (load_release_info (some r) version digest)) [
                        | inl (e, fails) ↦ absurd (ground arith)
                        | inr (info, loads) ↦
                            let same : (version ≡ previous) × (m ≡ manifest) = ground arith in
                            let b : IsBound version digest s.releases = record {
                              release = r;
                              found = found;
                              info = info;
                              loads = loads;
                            } in
                            (
                              digest,
                              subst (λ x. digest_of x (digests_of manifest) ≡ some digest) same.0
                                  (subst (λ x. digest_of version (digests_of x) ≡ some digest)
                                    same.1 has),
                              subst (λ x. IsBound x digest s.releases) same.0 b,
                            )
                      ]
                ]
              ]
        ]
      ]

  rollback-IsCurrent :
      (s : Site) (m : Fields)
      → (rollback launcher_path h s).0 ≡ ok m
      → IsCurrent (rollback launcher_path h s).1 m
  unfolding rollback
  rollback-IsCurrent s m returned = elim (Result-cases (plan_rollback h s)) [
    | inl (e, fails) ↦ absurd (ground arith)
    | inr ((previous, history, manifest), planned) ↦
        let (digest, has, b) = rollback_plan s previous history manifest planned in
        let kept = history_before (get "current" manifest) previous history in
        let after : rollback launcher_path h s
            ≡ point_at launcher_path h previous kept (digests_of manifest) s =
          rw (planned, rollback) refl in
        subst (λ (x : Result Fields × Site). IsCurrent x.1 m) (sym after)
          (point_at-IsCurrent previous digest kept (digests_of manifest) s m has b
            (ap (λ (x : Result Fields × Site). x.0) (sym after) ∙ returned))
  ]

-- The commands that point the launcher at a version.
abbrev pub points_launcher : Command → Bool
points_launcher (install_wheel wheel expected) = true
points_launcher roll_back = true
points_launcher show_status = false
points_launcher remove = false

module _ (str_of : Json → String) (launcher_path : String) (h : Host) where
  make_current-IsCurrent :
      (version digest : String) (manifest : Fields) (s : Site) (m : Fields)
      → IsBound version digest s.releases
      → (make_current str_of launcher_path h version digest manifest s).0 ≡ ok m
      → IsCurrent (make_current str_of launcher_path h version digest manifest s).1 m
  unfolding make_current
  make_current-IsCurrent version digest manifest s m b returned =
      point_at-IsCurrent launcher_path h version digest _
        (put version (text digest) (digests_of manifest)) s m
        (digest_of-put version digest (digests_of manifest)) b returned

  install-IsCurrent :
      (wheel : Wheel) (expected : String) (s : Site) (m : Fields)
      → (install str_of launcher_path h wheel expected s).0 ≡ ok m
      → IsCurrent (install str_of launcher_path h wheel expected s).1 m
  install-IsCurrent wheel expected s m returned =
      let (version, digest, i) =
        install-IsInstalled str_of launcher_path h wheel expected s m returned in
      let b = IsInstalled-placed str_of launcher_path h wheel expected s version digest i in
      subst (λ (x : Result Fields × Site). IsCurrent x.1 m) (sym i.result)
        (make_current-IsCurrent version digest i.manifest _ m b
          (ap (λ (x : Result Fields × Site). x.0) (sym i.result) ∙ returned))

  -- Whenever an install or a rollback returns, the manifest it returns is the one that is written, the
  -- launcher starts the version that it names as current, and that version's folder holds a marker for
  -- the digest that the manifest records for it.
  pub run_command-IsCurrent :
      (c : Command) (s : Site) (m : Fields)
      → points_launcher c ≡ true
      → (run_command str_of launcher_path h c s).0 ≡ ok m
      → IsCurrent (run_command str_of launcher_path h c s).1 m
  unfolding run_command
  run_command-IsCurrent (install_wheel wheel expected) s m points returned =
      install-IsCurrent wheel expected s m returned
  run_command-IsCurrent roll_back s m points returned =
      rollback-IsCurrent launcher_path h s m returned
  run_command-IsCurrent show_status s m points returned = cc
  run_command-IsCurrent remove s m points returned = cc
