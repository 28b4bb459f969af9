-- ===== src/Bootstrap/Back.antt =====
-- A rollback undoes an install, in src/scripts/release_bootstrap.py.
use mathlib.Core.Path.{subst}
use package.text.Mathlib.TextEquality.{eq_iff}
use gpthands.Prelude.{
  String, true, false, some, List, [], ◌∷◌, ◌++◌, ◌≡◌, ◌≢◌, refl, sym, ap, ◌∙◌, arith, ◌=?◌,
  is_empty, length, ◌-◌, Bool-cases, inl, inr, ok,
}
use gpthands.Prelude.Errors.{Result}
use gpthands.Json.{Json, text, Fields, get, put}
use gpthands.Bootstrap.Wheel.{Wheel, normalize_sha256, inspect_wheel}
use gpthands.Bootstrap.Defs.{
  Site, done, Host, find_release, load_manifest, check_digests, digests_of, digest_of, history_of,
  last_ten, without, drop, python_in, launcher_text,
}
use gpthands.Bootstrap.Bound.{IsBound, find_release-place_release}
use gpthands.Bootstrap.Kept.{
  made, IsInstalled, install-IsInstalled, point_at-releases, accept_wheel-normal,
}
use gpthands.Bootstrap.Install.{
  holding, point_at, make_current, install, history_after, place_release,
}
use gpthands.Bootstrap.Commands.{rollback}
use gpthands.Bootstrap.OneDigest.{same_version}
use gpthands.Bootstrap.Lists.{pop_last-last_ten, check_digests-written, digest_of-put_ne}
use gpthands.Bootstrap.Current.{IsCurrent, point_at-writes}
use gpthands.Bootstrap.Ready.{
  load_manifest-parts, place_release-links, point_at-links, open_site-opens, accept_wheel-links,
  IsReady, rollback-ready,
}

-- The history that an install writes ends in the version that was current.
history_after-current :
    (str_of : Json → String) (version previous : String) (history : List String)
    → version ≢ previous
    → is_empty previous ≡ false
    → history_after str_of (some (text previous)) version history
      ≡ last_ten (without previous history ++ previous ∷ [])
unfolding history_after
history_after-current str_of version previous history ne named =
    elim (Bool-cases (previous =? version)) [
      | inl same ↦ absurd (ne (ground (arith, eq_iff previous version)))
      | inr differ ↦ rw (named, differ) refl
    ]

module _ (launcher_path : String) (h h' : Host) (s : Site) (version previous digest old : String)
    (before : List String) (d : Fields) where
  abbrev appended : Result Fields × Site
  appended =
      point_at launcher_path h version (last_ten (before ++ previous ∷ []))
        (put version (text digest) d) s

  point_at-IsReady :
      (b : IsBound previous old s.releases) (m : Fields)
      → appended.0 ≡ ok m
      → version ≢ previous
      → normalize_sha256 digest ≡ ok digest
      → check_digests d ≡ ok tt
      → digest_of previous d ≡ some old
      → (s.root_exists ≡ true)
        × (s.root_symlink ≡ false)
        × (s.bin_symlink ≡ false)
        × (s.releases_symlink ≡ false)
      → h'.smoke previous ≡ ok true
      → (h'.launcher_write ≡ done) × (h'.manifest_write ≡ done)
      → IsReady launcher_path h' appended.1 version previous
  point_at-IsReady b m returned ne normal good has flat runs writes =
      let history = last_ten (before ++ previous ∷ []) in
      let digests = put version (text digest) d in
      let (m_is, recorded, starts, root) =
        point_at-writes launcher_path h version history digests s m returned in
      let (linked, plain) = point_at-links launcher_path h version history digests s m returned in
      record {
        history = history;
        before = drop (length (before ++ previous ∷ []) - 10) before;
        digests = digests;
        digest = old;
        release = b.release;
        info = b.info;
        written = recorded ∙ ap holding m_is;
        checked = check_digests-written version digest d normal good;
        links = (
          ap (λ x. x.0) linked ∙ flat.0,
          ap (λ x. x.1) linked ∙ flat.1,
          ap (λ x. x.2) linked ∙ flat.2,
          ap (λ x. x.3) linked ∙ flat.3,
          plain,
        );
        last = pop_last-last_ten before previous;
        recorded = digest_of-put_ne version previous (text digest) d ne ∙ has;
        found =
            ap (find_release previous) (point_at-releases launcher_path h version history digests s)
            ∙ b.found;
        loads = b.loads;
        runs = runs;
        writes = writes;
      }

module _ (str_of : Json → String) (launcher_path : String) (h h' : Host) (wheel : Wheel)
    (expected : String) (s : Site) where
  install-IsReady :
      (m1 m2 : Fields) (cur : IsCurrent s m1) (version digest : String)
      → IsInstalled str_of launcher_path h wheel expected s version digest
      → version ≢ cur.version
      → is_empty cur.version ≡ false
      → (install str_of launcher_path h wheel expected s).0 ≡ ok m2
      → h'.smoke cur.version ≡ ok true
      → (h'.launcher_write ≡ done) × (h'.manifest_write ≡ done)
      → IsReady launcher_path h'
          (install str_of launcher_path h wheel expected s).1
          version
          cur.version
  install-IsReady m1 m2 cur version digest i ne named returned runs writes =
      let s' = made str_of launcher_path h s in
      let s1 = (place_release h version digest s').1 in
      let (loaded, flat) = open_site-opens version digest s' i.manifest i.opened_site in
      let (good, same) =
        load_manifest-parts m1 i.manifest (ap load_manifest (sym cur.recorded) ∙ loaded) in
      let (normal_is, normal, inspected) =
        accept_wheel-normal str_of launcher_path h wheel expected s version digest i.accepted in
      let (root_flat, bin_flat) = accept_wheel-links h wheel expected s version digest i.accepted in
      let before = without cur.version (history_of i.manifest) in
      let current = same.1 ∙ cur.named in
      let history_is =
        ap (λ x. history_after str_of x version (history_of i.manifest)) current
        ∙ history_after-current str_of version cur.version (history_of i.manifest) ne named in
      let after : install str_of launcher_path h wheel expected s
          ≡ appended launcher_path h h' s1 version cur.version digest cur.digest before
              (digests_of i.manifest) =
        i.result
        ∙ (unfold make_current in
            ap
              (λ x.
                point_at launcher_path h version x
                  (put version (text digest) (digests_of i.manifest)) s1)
              history_is) in
      let links = place_release-links h version digest s' in
      let bound : IsBound cur.version cur.digest s1.releases = record {
        release = cur.bound.release;
        found =
            find_release-place_release h version digest s' cur.version cur.bound.release
              cur.bound.found;
        info = cur.bound.info;
        loads = cur.bound.loads;
      } in
      subst (λ (x : Result Fields × Site). IsReady launcher_path h' x.1 version cur.version)
        (sym after)
        (point_at-IsReady launcher_path h h' s1 version cur.version digest cur.digest before
          (digests_of i.manifest) bound m2
          (ap (λ (x : Result Fields × Site). x.0) (sym after) ∙ returned) ne normal
          (ap check_digests same.0 ∙ good) (ap (digest_of cur.version) same.0 ∙ cur.digest_recorded)
          (
            ap (λ x. x.0) links,
            ap (λ x. x.1) links ∙ root_flat,
            ap (λ x. x.2) links ∙ bin_flat,
            ap (λ x. x.3) links ∙ flat,
          )
          runs writes)

  -- After an install over a version that was properly current, a rollback returns, names that version as
  -- current again and points the launcher at it, if its smoke test succeeds and the two files can be
  -- written.
  pub install-rollback :
      (m1 m2 : Fields) (cur : IsCurrent s m1) (name version : String)
      → inspect_wheel wheel ≡ ok (name, version)
      → version ≢ cur.version
      → is_empty cur.version ≡ false
      → (install str_of launcher_path h wheel expected s).0 ≡ ok m2
      → h'.smoke cur.version ≡ ok true
      → (h'.launcher_write ≡ done) × (h'.manifest_write ≡ done)
      → let s' = (install str_of launcher_path h wheel expected s).1 in
        (m : Fields) × ((rollback launcher_path h' s').0 ≡ ok m)
        × (get "current" m ≡ some (text cur.version))
        × ((rollback launcher_path h' s').1.launcher.content
            ≡ launcher_text (python_in s'.root cur.version))
  install-rollback m1 m2 cur name version inspected ne named returned runs writes =
      let (version0, digest, i) =
        install-IsInstalled str_of launcher_path h wheel expected s m2 returned in
      let (normal_is, normal, (name0, v0)) =
        accept_wheel-normal str_of launcher_path h wheel expected s version0 digest i.accepted in
      let same : version0 ≡ version =
        same_version str_of launcher_path wheel name0 name version0 version v0 inspected in
      rollback-ready launcher_path h' (install str_of launcher_path h wheel expected s).1 version0
        cur.version
        (install-IsReady m1 m2 cur version0 digest i (λ e. ne (sym same ∙ e)) named returned runs
          writes)
