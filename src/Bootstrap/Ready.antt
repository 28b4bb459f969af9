-- ===== src/Bootstrap/Ready.antt =====
-- What a rollback needs to go back, in src/scripts/release_bootstrap.py, and what an install leaves of it.
use package.text.Mathlib.TextEquality.{eq_iff}
use gpthands.Prelude.{
  String, Bool, true, false, Option, some, List, ◌≡◌, ◌≢◌, refl, sym, ap, ◌∙◌, arith,
  string_discrete, Result-cases, inl, inr, ok,
}
use gpthands.Prelude.Errors.{Result}
use gpthands.Json.{text, obj, Fields, get, put, as_fields, equals_int, get-put, get-put_ne}
use gpthands.Bootstrap.Wheel.{Wheel}
use gpthands.Bootstrap.Defs.{
  Release, Site, done, Host, find_release, load_manifest, check_manifest, read_object, is_list,
  digests_in, check_digests, load_release_info, digests_of, digest_of, history_of, pop_last,
  sort_keys, python_in, launcher_text,
}
use gpthands.Bootstrap.Install.{
  holding, atomic_text, write_launcher, write_manifest, manifest_of, point_at, refuse_release,
  smoke_release, succeeded, accept_wheel, open_site, place_release, add_release,
}
use gpthands.Bootstrap.Commands.{
  rollback, plan_rollback, history_before, previous_release, recorded_digest,
}
use gpthands.Bootstrap.Lists.{texts_in-texts_of}
use gpthands.Bootstrap.Current.{point_at-writes, digest_of-sort_keys}

-- A manifest that loads is what is written, with its digests, which have been checked.
load_manifest-digests :
    (m loaded : Fields)
    → load_manifest (holding m) ≡ ok loaded
    → (check_digests (digests_of m) ≡ ok tt) × (loaded ≡ put "digests" (obj (digests_of m)) m)
unfolding load_manifest check_manifest read_object digests_in digests_of as_fields
load_manifest-digests m loaded h = elim (Result-cases (digests_in m)) [
  | inl (e, bad) ↦ absurd (ground arith)
  | inr (d, found) ↦ elim (Result-cases (check_digests d)) [
    | inl (e, bad) ↦ absurd (ground arith)
    | inr (u, good) ↦
        let same : digests_of m ≡ d = ground arith in
        let end : loaded ≡ put "digests" (obj d) m = ground arith in
        (ap check_digests same ∙ good, end ∙ ap (λ x. put "digests" (obj x) m) (sym same))
  ]
]

current-digests : ◌≢◌ {A = String} "digests" "current"
current-digests e = ground (arith, e, eq_iff "digests" "current")

digests_of-put : (d m : Fields) → digests_of (put "digests" (obj d) m) ≡ d
unfolding digests_of as_fields
digests_of-put d m = rw (get-put "digests" (obj d) m, digests_of) refl

pub load_manifest-parts :
    (m loaded : Fields)
    → load_manifest (holding m) ≡ ok loaded
    → (check_digests (digests_of m) ≡ ok tt)
      × ((digests_of loaded ≡ digests_of m) × (get "current" loaded ≡ get "current" m))
load_manifest-parts m loaded h =
    let (good, same) = load_manifest-digests m loaded h in
    (
      good,
      (
        ap digests_of same ∙ digests_of-put (digests_of m) m,
        ap (get "current") same
            ∙ get-put_ne "digests" "current" (obj (digests_of m)) m current-digests,
      ),
    )

load_manifest-written :
    (version launcher_path : String) (history : List String) (d : Fields)
    → check_digests (sort_keys d) ≡ ok tt
    → load_manifest (holding (manifest_of version history d launcher_path))
      ≡ ok (manifest_of version history d launcher_path)
unfolding load_manifest check_manifest read_object digests_in is_list equals_int get put
    string_discrete
load_manifest-written version launcher_path history d good = rw good refl

written_fields :
    (version launcher_path : String) (history : List String) (d : Fields)
    → let m = manifest_of version history d launcher_path in
      (history_of m ≡ history)
      × (digests_of m ≡ sort_keys d)
      × (get "current" m ≡ some (text version))
unfolding history_of digests_of as_fields get string_discrete
written_fields version launcher_path history d = (texts_in-texts_of history, refl, refl)

-- What an install leaves as it is, and the file that it writes.
abbrev pub links_of : Site → Bool × Bool × Bool × Bool × String
links_of s = (s.root_exists, s.root_symlink, s.bin_symlink, s.releases_symlink, s.root)

pub place_release-links :
    (h : Host) (version digest : String) (s : Site)
    → links_of (place_release h version digest s).1 ≡ links_of s
unfolding place_release add_release
place_release-links h version digest s = ground arith

pub point_at-links :
    (launcher_path : String) (h : Host) (version : String) (history : List String)
    (digests : Fields) (s : Site) (m : Fields)
    → (point_at launcher_path h version history digests s).0 ≡ ok m
    → (links_of (point_at launcher_path h version history digests s).1 ≡ links_of s)
      × ((point_at launcher_path h version history digests s).1.launcher.is_symlink ≡ false)
unfolding point_at write_launcher write_manifest atomic_text
point_at-links launcher_path h version history digests s m returned = ground arith

pub open_site-opens :
    (version digest : String) (s : Site) (m : Fields)
    → open_site version digest s ≡ ok m
    → (load_manifest s.manifest ≡ ok m) × (s.releases_symlink ≡ false)
unfolding open_site
open_site-opens version digest s m opens = ground arith

pub accept_wheel-links :
    (h : Host) (wheel : Wheel) (expected : String) (s : Site) (version digest : String)
    → accept_wheel h wheel expected s ≡ ok (version, digest)
    → (s.root_symlink ≡ false) × (s.bin_symlink ≡ false)
unfolding accept_wheel
accept_wheel-links h wheel expected s version digest accepted = ground arith

loads-directory :
    (r : Release) (version digest : String) (info : Fields)
    → load_release_info (some r) version digest ≡ ok info
    → r.is_symlink ≡ false
unfolding load_release_info
loads-directory r version digest info loads = ground arith

point_at-returns :
    (launcher_path : String) (h : Host) (version : String) (history : List String)
    (digests : Fields) (s : Site)
    → h.launcher_write ≡ done
    → h.manifest_write ≡ done
    → s.root_symlink ≡ false
    → s.bin_symlink ≡ false
    → s.launcher.is_symlink ≡ false
    → s.manifest.symlink ≡ false
    → (point_at launcher_path h version history digests s).0
      ≡ ok (manifest_of version history digests launcher_path)
unfolding point_at write_launcher write_manifest atomic_text
point_at-returns launcher_path h version history digests s a b c d e f = rw (a, b, c, d, e, f) refl

-- What an install leaves for a rollback to go back by.
pub record IsReady (launcher_path : String) (h : Host) (s : Site) (version previous : String)
    : Type 0 where
  pub history : List String
  pub before : List String
  pub digests : Fields
  pub digest : String
  pub release : Release
  pub info : Fields
  pub written : s.manifest ≡ holding (manifest_of version history digests launcher_path)
  pub checked : check_digests (sort_keys digests) ≡ ok tt
  pub links :
      (s.root_exists ≡ true)
      × (s.root_symlink ≡ false)
      × (s.bin_symlink ≡ false)
      × (s.releases_symlink ≡ false)
      × (s.launcher.is_symlink ≡ false)
  pub last : pop_last history ≡ some (previous, before)
  pub recorded : digest_of previous digests ≡ some digest
  pub found : find_release previous s.releases ≡ some release
  pub loads : load_release_info (some release) previous digest ≡ ok info
  pub runs : h.smoke previous ≡ ok true
  pub writes : (h.launcher_write ≡ done) × (h.manifest_write ≡ done)

previous_release-last :
    (m : Fields) (history before : List String) (previous : String)
    → history_of m ≡ history
    → pop_last history ≡ some (previous, before)
    → previous_release m ≡ ok (previous, before)
unfolding previous_release
previous_release-last m history before previous kept last = rw (kept, last, previous_release) refl

recorded_digest-found :
    (version digest : String) (d : Fields)
    → digest_of version d ≡ some digest
    → recorded_digest version d ≡ ok digest
unfolding recorded_digest
recorded_digest-found version digest d has = rw (has, recorded_digest) refl

refuse_release-folder :
    (found : Option Release) (r : Release)
    → found ≡ some r
    → r.is_symlink ≡ false
    → refuse_release found ≡ ok tt
unfolding refuse_release
refuse_release-folder found r there plain = ground arith

smoke_release-runs :
    (h : Host) (version : String) → h.smoke version ≡ ok true → smoke_release h version ≡ ok tt
unfolding smoke_release succeeded
smoke_release-runs h version runs = rw runs refl

plan_rollback-ready :
    (launcher_path : String) (h : Host) (s : Site) (version previous : String)
    (r : IsReady launcher_path h s version previous)
    → plan_rollback h s
      ≡ ok (previous, r.before, manifest_of version r.history r.digests launcher_path)
unfolding plan_rollback
plan_rollback-ready launcher_path h s version previous r =
    let m = manifest_of version r.history r.digests launcher_path in
    let (a, b, c, d, e) = r.links in
    let (kept, sorted, named) = written_fields version launcher_path r.history r.digests in
    let opens = load_manifest-written version launcher_path r.history r.digests r.checked in
    let popped = previous_release-last m r.history r.before previous kept r.last in
    let has =
      recorded_digest-found previous r.digest (digests_of m)
        (ap (digest_of previous) sorted ∙ digest_of-sort_keys previous r.digests ∙ r.recorded) in
    let folder =
      refuse_release-folder _ r.release r.found
        (loads-directory r.release previous r.digest r.info r.loads) in
    rw
      (
        a,
        b,
        c,
        d,
        r.written,
        opens,
        popped,
        folder,
        has,
        r.found,
        r.loads,
        smoke_release-runs h previous r.runs,
      )
      refl

-- A rollback from there returns, and points the launcher at the previous version.
pub rollback-ready :
    (launcher_path : String) (h : Host) (s : Site) (version previous : String)
    → IsReady launcher_path h s version previous
    → (m : Fields) × ((rollback launcher_path h s).0 ≡ ok m)
      × (get "current" m ≡ some (text previous))
      × ((rollback launcher_path h s).1.launcher.content
          ≡ launcher_text (python_in s.root previous))
rollback-ready launcher_path h s version previous r =
    let m = manifest_of version r.history r.digests launcher_path in
    let kept = history_before (get "current" m) previous r.before in
    let (a, b, c, d, e) = r.links in
    let plain : s.manifest.symlink ≡ false = ap (λ x. x.symlink) r.written in
    let after : rollback launcher_path h s
        ≡ point_at launcher_path h previous kept (digests_of m) s =
      unfold rollback in
      rw (plan_rollback-ready launcher_path h s version previous r, rollback) refl in
    let returned =
      point_at-returns launcher_path h previous kept (digests_of m) s r.writes.0 r.writes.1 b c e
        plain in
    let (same, recorded, starts, root) =
      point_at-writes launcher_path h previous kept (digests_of m) s _ returned in
    (
      manifest_of previous kept (digests_of m) launcher_path,
      ap (λ (x : Result Fields × Site). x.0) after ∙ returned,
      (written_fields previous launcher_path kept (digests_of m)).2,
      ap (λ (x : Result Fields × Site). x.1.launcher.content) after ∙ starts,
    )
