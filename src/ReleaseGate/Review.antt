-- ===== src/ReleaseGate/Review.antt =====
-- When `verify_release_gate` of src/gpthands/release_gate.py lets a stable version through.
use gpthands.Prelude.{
  String, true, false, Option, none, some, List, ◌≡◌, ◌⊎◌, ◌↔◌, inl, inr, ap, ◌∙◌, arith, elem, all,
  has_prefix, =?_refl, replace_char, Result-cases, Option-cases, ok, string_discrete,
}
use gpthands.Json.{pos, Json, bool, int, obj, Fields, get, equals_int}
use gpthands.Policy.Load.{keys}
use gpthands.ReleaseGate.Defs.{
  is_sha40, is_stable_version, review_path, allowed_promotion_files, allowed_fields, require_string,
  normalize_changed_files, ReviewFile, ReleaseGateResult, require_zero, is_true, is_note,
  check_promotion, ZoneOf, parse_completed_at, files_of, check_review, read_review, verify_stable,
  verify_release_gate,
}

module _ (zone_of : ZoneOf) (version current : String) (files : Option (List String)) where
  -- The result for a version that is let through.
  abbrev pub released : String → String → String → List String → ReleaseGateResult
  released reviewed reviewer report_url changed = record {
    version = version;
    stable = true;
    review_required = true;
    review_file = some (review_path version);
    reviewed_commit = some reviewed;
    reviewer = some reviewer;
    report_url = some report_url;
    promotion_changed_files = changed;
  }

  -- The release is the reviewed commit, or the files that changed since are known, are all among
  -- those that a promotion may change, and the review file is one of them.
  unfoldable pub IsPromotion : String → List String → Type 0
  IsPromotion reviewed changed =
      (reviewed ≡ current)
      ⊎ ((files ≡ none → ⊥)
          × (all (λ f. elem f (allowed_promotion_files version)) changed ≡ true)
          × (elem (review_path version) changed ≡ true))

  pub record IsApproved (fields : Fields) (reviewed reviewer report_url : String)
      (changed : List String) : Type 0 where
    pub known : all (λ k. elem k allowed_fields) (keys fields) ≡ true
    pub schema : equals_int (get "schema_version" fields) 1 ≡ true
    pub status : require_string fields "status" ≡ ok "approved"
    pub same_version : require_string fields "version" ≡ ok version
    pub commit : require_string fields "reviewed_commit" ≡ ok reviewed
    pub commit_sha : is_sha40 reviewed ≡ true
    pub normalized : normalize_changed_files (files_of files) ≡ ok changed
    pub promotion : IsPromotion reviewed changed
    pub named : require_string fields "reviewer" ≡ ok reviewer
    pub attested : get "independent_reviewer_attested" fields ≡ some (bool true)
    pub completed : String
    pub completed_at : require_string fields "completed_at" ≡ ok completed
    pub zoned : zone_of (replace_char b'Z' "+00:00" completed) ≡ some true
    pub report : require_string fields "report_url" ≡ ok report_url
    pub secure : has_prefix "https://" report_url ≡ true
    pub no_critical : get "critical_open" fields ≡ some (int (pos 0))
    pub no_high : get "high_open" fields ≡ some (int (pos 0))
    pub noted : is_note (get "notes" fields) ≡ true

  is_true-true : (v : Option Json) → is_true v ≡ true → v ≡ some (bool true)
  unfolding is_true
  is_true-true v h = ground arith

  require_zero-ok :
      (fields : Fields) (key : String)
      → require_zero fields key ≡ ok tt
      → get key fields ≡ some (int (pos 0))
  unfolding require_zero
  require_zero-ok fields key h = ground arith

  check_promotion-IsPromotion :
      (reviewed : String) (changed : List String)
      → check_promotion version current reviewed files changed ≡ ok tt
      → IsPromotion reviewed changed
  unfolding check_promotion IsPromotion
  check_promotion-IsPromotion reviewed changed h = elim (string_discrete reviewed current) [
    | yes same ↦ inl same
    | no differ ↦ inr (λ missing. ground arith, ground arith, ground arith)
  ]

  IsPromotion-check_promotion :
      (reviewed : String) (changed : List String)
      → IsPromotion reviewed changed
      → check_promotion version current reviewed files changed ≡ ok tt
  unfolding check_promotion IsPromotion
  IsPromotion-check_promotion reviewed changed h = elim (Option-cases files) [
    | inl e ↦ ground arith
    | inr (fs, e) ↦ ground arith
  ]

  -- The values that the result carries.
  check_review-released :
      (fields : Fields) (r : ReleaseGateResult)
      → check_review zone_of version current files fields ≡ ok r
      → (reviewed : String) × (reviewer : String) × (report_url : String) × (changed : List String)
        × (r ≡ released reviewed reviewer report_url changed)
  unfolding check_review
  check_review-released fields r h = elim (Result-cases (require_string fields "reviewed_commit")) [
    | inl (e, c) ↦ absurd (ground arith)
    | inr (reviewed, c) ↦ elim (Result-cases (require_string fields "reviewer")) [
      | inl (e, n) ↦ absurd (ground arith)
      | inr (reviewer, n) ↦ elim (Result-cases (require_string fields "report_url")) [
        | inl (e, u) ↦ absurd (ground arith)
        | inr (url, u) ↦ elim (Result-cases (normalize_changed_files (files_of files))) [
          | inl (e, g) ↦ absurd (ground arith)
          | inr (changed, g) ↦ (reviewed, reviewer, url, changed, ground arith)
        ]
      ]
    ]
  ]

  module _ (fields : Fields) (reviewed reviewer report_url : String) (changed : List String) where
    check_review-time :
        check_review zone_of version current files fields
          ≡ ok (released reviewed reviewer report_url changed)
        → (completed : String) × (require_string fields "completed_at" ≡ ok completed)
    unfolding check_review
    check_review-time h = elim (Result-cases (require_string fields "completed_at")) [
      | inl (e, c) ↦ absurd (ground arith)
      | inr found ↦ found
    ]

    check_review-IsApproved :
        check_review zone_of version current files fields
          ≡ ok (released reviewed reviewer report_url changed)
        → IsApproved fields reviewed reviewer report_url changed
    unfolding check_review parse_completed_at
    check_review-IsApproved h =
        let (completed, at) = check_review-time h in
        record {
          known = ground arith;
          schema = ground arith;
          status = ground arith;
          same_version = ground arith;
          commit = ground arith;
          commit_sha = ground arith;
          normalized = ground arith;
          promotion = check_promotion-IsPromotion reviewed changed (ground arith);
          named = ground arith;
          attested = is_true-true _ (ground arith);
          completed = completed;
          completed_at = at;
          zoned = ground arith;
          report = ground arith;
          secure = ground arith;
          no_critical = require_zero-ok fields "critical_open" (ground arith);
          no_high = require_zero-ok fields "high_open" (ground arith);
          noted = ground arith;
        }

    IsApproved-check_review :
        IsApproved fields reviewed reviewer report_url changed
        → check_review zone_of version current files fields
          ≡ ok (released reviewed reviewer report_url changed)
    unfolding check_review parse_completed_at require_zero is_true
    IsApproved-check_review a = ground (
      arith,
      IsPromotion-check_promotion reviewed changed a.promotion,
      =?_refl "approved",
      =?_refl version,
    )

  pub record IsReleasable (file : ReviewFile) (r : ReleaseGateResult) : Type 0 where
    pub sha : is_sha40 current ≡ true
    pub plain : file.symlink ≡ false
    pub present : file.is_file ≡ true
    pub fields : Fields
    pub reads : file.content ≡ some (obj fields)
    pub reviewed : String
    pub reviewer : String
    pub report_url : String
    pub changed : List String
    pub returned : r ≡ released reviewed reviewer report_url changed
    pub approved : IsApproved fields reviewed reviewer report_url changed

  verify-review :
      (file : ReviewFile) (r : ReleaseGateResult)
      → is_stable_version version ≡ true
      → verify_release_gate zone_of version current files file ≡ ok r
      → (fields : Fields) × (file.content ≡ some (obj fields))
        × (check_review zone_of version current files fields ≡ ok r)
  unfolding verify_release_gate verify_stable read_review
  verify-review file r stable h = elim (Result-cases (read_review file)) [
    | inl (e, c) ↦ absurd (unfold read_review in (ground arith))
    | inr (fields, c) ↦ (fields, ground arith, ground arith)
  ]

  verify-IsReleasable :
      (file : ReviewFile) (r : ReleaseGateResult)
      → is_stable_version version ≡ true
      → verify_release_gate zone_of version current files file ≡ ok r
      → IsReleasable file r
  unfolding verify_release_gate verify_stable read_review
  verify-IsReleasable file r stable h =
      let (fields, reads, checked) = verify-review file r stable h in
      let (reviewed, reviewer, url, changed, e) = check_review-released fields r checked in
      record {
        sha = ground arith;
        plain = ground arith;
        present = ground arith;
        fields = fields;
        reads = reads;
        reviewed = reviewed;
        reviewer = reviewer;
        report_url = url;
        changed = changed;
        returned = e;
        approved =
            check_review-IsApproved fields reviewed reviewer url changed
              (checked ∙ ap (λ x. ok x) e);
      }

  IsReleasable-verify :
      (file : ReviewFile) (r : ReleaseGateResult)
      → is_stable_version version ≡ true
      → IsReleasable file r
      → verify_release_gate zone_of version current files file ≡ ok r
  unfolding verify_release_gate verify_stable read_review
  IsReleasable-verify file r stable a = ground (
    arith,
    IsApproved-check_review a.fields a.reviewed a.reviewer a.report_url a.changed a.approved,
  )

  -- For a stable version X.Y.Z the gate returns a result exactly where the current commit is a
  -- 40-digit SHA, the review file is a plain file that holds an object of known fields with an
  -- approved and attested review of this version, timed with a zone, reported at an https address
  -- and without open critical or high findings, and the release is the reviewed commit itself or
  -- differs from it only in files that a promotion may change, the review file among them; the
  -- result carries the review's values.
  pub verify_release_gate_iff :
      (file : ReviewFile) (r : ReleaseGateResult)
      → is_stable_version version ≡ true
      → (verify_release_gate zone_of version current files file ≡ ok r) ↔ IsReleasable file r
  verify_release_gate_iff file r stable =
      (verify-IsReleasable file r stable, IsReleasable-verify file r stable)
