-- ===== src/ReleaseGate/VersionOnly.antt =====
-- What a stable release that scripts/verify_release_gate.py lets through has changed since the review.
use mathlib.Core.Path.{subst}
use gpthands.Approval.Defs.{split_lines}
use package.text.Mathlib.TextEquality.{eq_iff}
use gpthands.Prelude.{
  zero, String, true, some, List, [], ◌∷◌, ◌≡◌, ◌≢◌, ◌⊎◌, inl, inr, arith, ◌=?◌, All, replace_from,
  Bool-cases, Option-cases, Result-cases, ok, Option, none, =?_refl,
}
use gpthands.Json.{Json, null, bool, int, real, text, arr, obj}
use gpthands.ReleaseGate.Defs.{ZoneOf, ReviewFile, ReleaseGateResult, is_stable_version}
use gpthands.ReleaseGate.Script.{
  Repository, version_files, is_prerelease_of, read_reviewed_commit, or_raise, text_version,
  git_show, check_version_file, check_version_files, validate_version_only_promotion, changed_since,
  promotion_diff, run_gate, non_blank_lines,
}

module _ (r : Repository) (reviewed_commit reviewed stable : String) where
  -- A file whose text in the tree is the reviewed one with the version replaced, which changes it.
  pub record IsSubstituted (path : String) : Type 0 where
    pub baseline : String
    pub was : r.show reviewed_commit path ≡ some baseline
    pub contains : replace_from zero reviewed stable baseline ≢ baseline
    pub is : r.read_text path ≡ some (replace_from zero reviewed stable baseline)

  check_version_file-IsSubstituted :
      (path : String)
      → check_version_file r reviewed_commit reviewed stable path ≡ ok tt
      → IsSubstituted path
  unfolding check_version_file git_show or_raise
  check_version_file-IsSubstituted path checked =
      elim (Option-cases (r.show reviewed_commit path)) [
        | inl absent ↦ absurd (ground arith)
        | inr (baseline, was) ↦ elim (Option-cases (r.read_text path)) [
          | inl absent ↦ absurd (ground arith)
          | inr (current, read) ↦ record {
            baseline = baseline;
            was = was;
            contains = λ same. absurd (ground (arith, same, =?_refl baseline));
            is = ground (arith, eq_iff current (replace_from zero reviewed stable baseline));
          }
        ]
      ]

  check_version_files-All :
      (paths : List String)
      → check_version_files r reviewed_commit reviewed stable paths ≡ ok tt
      → All IsSubstituted paths
  unfolding check_version_files
  check_version_files-All [] checked = tt
  check_version_files-All (path ∷ paths) checked =
      elim (Result-cases (check_version_file r reviewed_commit reviewed stable path)) [
        | inl (e, fails) ↦ absurd (ground arith)
        | inr (u, good) ↦ (
          check_version_file-IsSubstituted path good,
          check_version_files-All paths (ground arith),
        )
      ]

-- The reviewed commit comes before the release, its pyproject.toml names a prerelease of the release's
-- version, and each of the version files is changed since then by that substitution and by nothing else.
pub record IsVersionOnly (r : Repository) (reviewed_commit current stable : String) : Type 0 where
  pub before : r.is_ancestor reviewed_commit current ≡ true
  pub baseline : String
  pub pyproject : r.show reviewed_commit "pyproject.toml" ≡ some baseline
  pub reviewed : String
  pub names : r.project_version baseline ≡ some (text reviewed)
  pub direct : is_prerelease_of stable reviewed ≡ true
  pub substituted : All (IsSubstituted r reviewed_commit reviewed stable) version_files

text_version-text :
    (value : Option Json) (version : String)
    → text_version value ≡ ok version
    → value ≡ some (text version)
unfolding text_version
text_version-text none version h = absurd (ground arith)
text_version-text (some (text t)) version h = ground arith
text_version-text (some null) version h = absurd (ground arith)
text_version-text (some (bool b)) version h = absurd (ground arith)
text_version-text (some (int b)) version h = absurd (ground arith)
text_version-text (some (real b)) version h = absurd (ground arith)
text_version-text (some (arr b)) version h = absurd (ground arith)
text_version-text (some (obj b)) version h = absurd (ground arith)

validate-IsVersionOnly :
    (r : Repository) (reviewed_commit current stable : String) (changed : List String)
    → r.is_ancestor reviewed_commit current ≡ true
    → validate_version_only_promotion r reviewed_commit stable changed ≡ ok tt
    → IsVersionOnly r reviewed_commit current stable
unfolding validate_version_only_promotion git_show or_raise
validate-IsVersionOnly r reviewed_commit current stable changed before valid =
    elim (Result-cases (git_show r reviewed_commit "pyproject.toml")) [
      | inl (e, fails) ↦ absurd (ground arith)
      | inr (baseline, was) ↦ elim (Result-cases (text_version (r.project_version baseline))) [
        | inl (e, fails) ↦ absurd (ground arith)
        | inr (reviewed, named) ↦ record {
          before = before;
          baseline = baseline;
          pyproject = ground (arith, was);
          reviewed = reviewed;
          names = text_version-text (r.project_version baseline) reviewed named;
          direct = ground arith;
          substituted =
              check_version_files-All r reviewed_commit reviewed stable version_files
                (ground arith);
        }
      ]
    ]

changed_since-IsVersionOnly :
    (r : Repository) (stable reviewed_commit current : String) (changed : List String)
    → changed_since r stable reviewed_commit current ≡ ok changed
    → IsVersionOnly r reviewed_commit current stable
unfolding changed_since
changed_since-IsVersionOnly r stable reviewed_commit current changed passed =
    elim (Result-cases
      (or_raise (r.diff reviewed_commit current) "cannot inspect stable promotion diff")) [
        | inl (e, fails) ↦ absurd (ground arith)
        | inr (names, printed) ↦
            validate-IsVersionOnly r reviewed_commit current stable
              (non_blank_lines (split_lines names)) (ground arith) (ground arith)
      ]

promotion_diff-IsVersionOnly :
    (r : Repository) (version current : String) (file : ReviewFile) (commit : String)
    (changed : List String)
    → promotion_diff r version current file ≡ ok (commit, changed)
    → (read_reviewed_commit file ≡ ok commit)
      × ((commit ≡ current) ⊎ IsVersionOnly r commit current version)
unfolding promotion_diff
promotion_diff-IsVersionOnly r version current file commit changed passed =
    elim (Result-cases (read_reviewed_commit file)) [
      | inl (e, fails) ↦ absurd (ground arith)
      | inr (named, found) ↦ elim (Bool-cases (named =? current)) [
        | inl same ↦ (ground arith, inl (ground (arith, eq_iff named current)))
        | inr differ ↦ elim (Result-cases (changed_since r version named current)) [
          | inl (e, fails) ↦ absurd (ground arith)
          | inr (files, since) ↦
              let agree : named ≡ commit = ground arith in
              (
                ground arith,
                inr (
                    subst (λ x. IsVersionOnly r x current version) agree
                      (changed_since-IsVersionOnly r version named current files since)),
              )
        ]
      ]
    ]

-- Where the gate lets a stable version through, the review names the released commit itself, or an
-- ancestor of it whose pyproject.toml names a prerelease of exactly this version, and since which each
-- of the three version files has changed, by the substitution of that prerelease by this version and by
-- nothing else.
pub run_gate-IsVersionOnly :
    (r : Repository) (zone_of : ZoneOf) (version current : String) (file : ReviewFile)
    (result : ReleaseGateResult)
    → is_stable_version version ≡ true
    → run_gate r zone_of version current file ≡ ok result
    → (commit : String) × (read_reviewed_commit file ≡ ok commit)
      × ((commit ≡ current) ⊎ IsVersionOnly r commit current version)
unfolding run_gate
run_gate-IsVersionOnly r zone_of version current file result stable passed =
    elim (Result-cases (promotion_diff r version current file)) [
      | inl (e, fails) ↦ absurd (ground arith)
      | inr ((commit, changed), found) ↦
          let (named, reviewed) =
            promotion_diff-IsVersionOnly r version current file commit changed found in
          (commit, named, reviewed)
    ]
