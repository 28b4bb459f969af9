-- ===== src/Bootstrap/Bound.antt =====
-- What a release folder of src/scripts/release_bootstrap.py is bound to, and that it stays so.
use mathlib.Core.Path.{subst}
use package.text.Mathlib.TextEquality.{eq_iff}
use gpthands.Prelude.{
  String, true, none, some, List, ◌≡◌, ◌≢◌, ◌⊎◌, refl, sym, ◌∙◌, arith, ◌=?◌, =?_refl,
  string_discrete, Bool-cases, Option-cases, Result-cases, inl, inr, ok,
}
use gpthands.Json.{pos, int, text, Fields, end, field, get, equals_int, equals_text}
use gpthands.Bootstrap.Wheel.{normalize_sha256}
use gpthands.Bootstrap.Defs.{
  Release, Site, Host, find_release, load_release_info, check_marker, release_info, marker_digest,
  read_object,
}
use gpthands.Bootstrap.Install.{
  new_release, build_release, place_release, add_release, smoke_release, succeeded,
}

-- The version's folder is there, and its marker names the version and the digest.
pub record IsBound (version digest : String) (releases : List (String × Release)) : Type 0 where
  pub release : Release
  pub found : find_release version releases ≡ some release
  pub info : Fields
  pub loads : load_release_info (some release) version digest ≡ ok info

-- Two digests that one folder is bound to are one.
pub load_release_info-digest :
    (r : Release) (version digest other : String) (info info' : Fields)
    → normalize_sha256 digest ≡ ok digest
    → normalize_sha256 other ≡ ok other
    → load_release_info (some r) version digest ≡ ok info
    → load_release_info (some r) version other ≡ ok info'
    → digest ≡ other
unfolding load_release_info check_marker
load_release_info-digest r version digest other info info' n n' h h' =
    elim (Result-cases (read_object r.marker "invalid release integrity marker")) [
      | inl (e, unread) ↦ absurd (ground arith)
      | inr (stored, isread) ↦ elim (Result-cases (marker_digest stored)) [
        | inl (e, unread) ↦ absurd (ground arith)
        | inr (marked, given) ↦ elim (Result-cases (normalize_sha256 marked)) [
          | inl (e, bad) ↦ absurd (ground arith)
          | inr (normal, good) ↦
              let same : normal ≡ digest = ground (arith, eq_iff normal digest) in
              let same' : normal ≡ other = ground (arith, eq_iff normal other) in sym same ∙ same'
        ]
      ]
    ]

abbrev info_of : String → String → Fields
info_of version digest =
    field "schema" (int (pos 1))
      (field "version" (text version) (field "wheel_sha256" (text digest) end))

build_release-new :
    (h : Host) (version digest : String) (r : Release)
    → normalize_sha256 digest ≡ ok digest
    → build_release h version digest ≡ ok r
    → r ≡ new_release (info_of version digest)
unfolding build_release release_info
build_release-new h version digest r n built = elim (Result-cases h.venv) [
  | inl (e, fails) ↦ absurd (ground arith)
  | inr (u, created) ↦ elim (Result-cases (succeeded h.pip "offline wheel install failed")) [
    | inl (e, fails) ↦ absurd (ground arith)
    | inr (v, installed) ↦ elim (Result-cases (smoke_release h version)) [
      | inl (e, fails) ↦ absurd (ground arith)
      | inr (w, runs) ↦ elim (Bool-cases h.marker_write) [
        | inl yes' ↦ ground arith
        | inr no' ↦ absurd (ground arith)
      ]
    ]
  ]
]

info_fields :
    (version digest : String)
    → (equals_int (get "schema" (info_of version digest)) 1 ≡ true)
      × (get "version" (info_of version digest) ≡ some (text version))
      × (marker_digest (info_of version digest) ≡ ok digest)
unfolding get equals_int marker_digest string_discrete
info_fields version digest = (refl, refl, refl)

new_release-loads :
    (version digest : String)
    → normalize_sha256 digest ≡ ok digest
    → load_release_info (some (new_release (info_of version digest))) version digest
      ≡ ok (info_of version digest)
unfolding load_release_info check_marker read_object equals_text
new_release-loads version digest n =
    let (schema, named, marked) = info_fields version digest in
    rw (schema, named, marked, n, =?_refl version, =?_refl digest) refl

-- A folder that has just been built is bound to the digest that it was built for.
build_release-loads :
    (h : Host) (version digest : String) (r : Release)
    → normalize_sha256 digest ≡ ok digest
    → build_release h version digest ≡ ok r
    → load_release_info (some r) version digest ≡ ok (info_of version digest)
build_release-loads h version digest r n built =
    subst (λ x. load_release_info (some x) version digest ≡ ok (info_of version digest))
      (sym (build_release-new h version digest r n built)) (new_release-loads version digest n)

-- What place_release does: a folder that is there is checked and left alone, and one that is not there is
-- added, or nothing is.
pub place_release-old :
    (h : Host) (version digest : String) (s : Site) (r : Release)
    → find_release version s.releases ≡ some r
    → ((place_release h version digest s).1 ≡ s)
      × ((place_release h version digest s).0 ≡ ok tt
          → (info : Fields) × (load_release_info (some r) version digest ≡ ok info))
unfolding place_release
place_release-old h version digest s r found = (
  rw (found, place_release) refl,
  λ placed. elim (Result-cases (load_release_info (some r) version digest)) [
    | inl (e, fails) ↦ absurd (ground arith)
    | inr loaded ↦ loaded
  ],
)

pub place_release-new :
    (h : Host) (version digest : String) (s : Site)
    → find_release version s.releases ≡ none
    → (((place_release h version digest s).1 ≡ s) × ((place_release h version digest s).0 ≢ ok tt))
      ⊎ ((r : Release) × (build_release h version digest ≡ ok r)
          × ((place_release h version digest s).1 ≡ add_release version r s))
unfolding place_release
place_release-new h version digest s absent = elim (Bool-cases h.makes_target) [
  | inr no' ↦ inl (ground arith, λ e. ground arith)
  | inl yes' ↦ elim (Result-cases (build_release h version digest)) [
    | inl (e, fails) ↦ inl (ground arith, λ e. ground arith)
    | inr (r, built) ↦ inr (r, built, ground arith)
  ]
]

find_release-add :
    (version : String) (r : Release) (s : Site)
    → find_release version (add_release version r s).releases ≡ some r
unfolding find_release add_release
find_release-add version r s = rw (=?_refl version) refl

find_release-other :
    (version other : String) (r old : Release) (s : Site)
    → find_release version s.releases ≡ none
    → find_release other s.releases ≡ some old
    → find_release other (add_release version r s).releases ≡ some old
unfolding find_release add_release
find_release-other version other r old s absent found = elim (Bool-cases (version =? other)) [
  | inl same ↦ absurd (ground (arith, eq_iff version other))
  | inr differ ↦ rw differ found
]

-- A release that place_release has passed is bound to its digest.
pub place_release-IsBound :
    (h : Host) (version digest : String) (s : Site)
    → normalize_sha256 digest ≡ ok digest
    → (place_release h version digest s).0 ≡ ok tt
    → IsBound version digest (place_release h version digest s).1.releases
place_release-IsBound h version digest s n placed =
    elim (Option-cases (find_release version s.releases)) [
      | inr (r, found) ↦
          let old = place_release-old h version digest s r found in
          let loaded = old.1 placed in
          subst (λ (x : Site). IsBound version digest x.releases) (sym old.0)
            (record { release = r; found = found; info = loaded.0; loads = loaded.1 })
      | inl absent ↦ elim (place_release-new h version digest s absent) [
        | inl (same, fails) ↦ absurd (fails placed)
        | inr (r, built, added) ↦
            subst (λ (x : Site). IsBound version digest x.releases) (sym added)
              (record {
                release = r;
                found = find_release-add version r s;
                info = info_of version digest;
                loads = build_release-loads h version digest r n built;
              })
      ]
    ]

-- A folder that is there is still there, as it was, whatever place_release does.
pub find_release-place_release :
    (h : Host) (version digest : String) (s : Site) (other : String) (old : Release)
    → find_release other s.releases ≡ some old
    → find_release other (place_release h version digest s).1.releases ≡ some old
find_release-place_release h version digest s other old kept =
    elim (Option-cases (find_release version s.releases)) [
      | inr (r, found) ↦
          subst (λ (x : Site). find_release other x.releases ≡ some old)
            (sym (place_release-old h version digest s r found).0) kept
      | inl absent ↦ elim (place_release-new h version digest s absent) [
        | inl (same, fails) ↦
            subst (λ (x : Site). find_release other x.releases ≡ some old) (sym same) kept
        | inr (r, built, added) ↦
            subst (λ (x : Site). find_release other x.releases ≡ some old) (sym added)
              (find_release-other version other r old s absent kept)
      ]
    ]
