-- ===== src/ReleaseGate/Tests.antt =====
-- Version 1.0.0, promoted from its reviewed baseline.
use gpthands.Prelude.{
  String, ◌⊎◌, drop_chars, replace_from, true, false, some, List, [], ◌∷◌, ◌≡◌, refl, ok, elem,
  is_empty, strip, lstrip, rstrip, cons_trimmed, is_space, string_discrete, split, replace_char,
  has_prefix, has_infix, all_chars,
}
use gpthands.Json.{pos, bool, int, text, obj, Fields, end, field, get, equals_int}
use gpthands.Policy.Load.{keys}
use gpthands.ReleaseGate.Defs.{
  is_digit, is_lower_hex, is_number, three_numbers, is_sha40, is_stable_version,
  allowed_promotion_files, require_string, text_before, add_sorted, item_of, is_outside,
  normalize_changed_files, ReviewFile, ReleaseGateResult, require_zero, is_true, is_note,
  check_promotion, ZoneOf, parse_completed_at, check_review, read_review, verify_stable,
  verify_release_gate,
}
use gpthands.Approval.Defs.{split_lines, is_line_break, onto_first}
use gpthands.ReleaseGate.Script.{
  Repository, run_gate, promotion_diff, read_reviewed_commit, changed_since, or_raise,
  non_blank_lines, validate_version_only_promotion, git_show, text_version, is_prerelease_of,
  is_prerelease_part, check_version_files, check_version_file,
}
use gpthands.ReleaseGate.VersionOnly.{IsVersionOnly, run_gate-IsVersionOnly}
use gpthands.ReleaseGate.Review.{released, IsReleasable, verify_release_gate_iff}

abbrev baseline : String
baseline = "0123456789abcdef0123456789abcdef01234567"

abbrev release : String
release = "ffffffffffffffffffffffffffffffffffffffff"

abbrev review : Fields
review = field "schema_version" (int (pos 1)) (
    field "status" (text "approved") (
      field "version" (text "1.0.0") (
        field "reviewed_commit" (text baseline) (
          field "reviewer" (text "Ann") (
            field "independent_reviewer_attested" (bool true) (
              field "completed_at" (text "2026-01-02T03:04:05Z") (
                field "report_url" (text "https://example.org/r")
                  (field "critical_open" (int (pos 0)) (field "high_open" (int (pos 0)) end)))))))))

abbrev file : ReviewFile
file = record { symlink = false; is_file = true; content = some (obj review) }

abbrev promoted : List String
promoted = "README.md" ∷ "docs\\reviews\\v1.0.0.json" ∷ "README.md " ∷ []

abbrev zones : ZoneOf
zones value = some true

abbrev result : ReleaseGateResult
result =
    released zones "1.0.0" release (some promoted) baseline "Ann" "https://example.org/r"
      ("README.md" ∷ "docs/reviews/v1.0.0.json" ∷ [])

stable : is_stable_version "1.0.0" ≡ true
unfolding is_stable_version split three_numbers is_number is_empty all_chars is_digit
stable = refl

let_through : verify_release_gate zones "1.0.0" release (some promoted) file ≡ ok result
unfolding verify_release_gate is_stable_version split three_numbers is_number is_empty all_chars
    is_digit verify_stable is_sha40 is_lower_hex read_review check_review keys elem string_discrete
    equals_int get require_string strip lstrip rstrip cons_trimmed is_space normalize_changed_files
    item_of replace_char is_outside has_prefix has_infix add_sorted text_before check_promotion
    allowed_promotion_files is_true parse_completed_at require_zero is_note
let_through = refl

verify_release_gate_iff_example :
    (verify_release_gate zones "1.0.0" release (some promoted) file ≡ ok result
      → IsReleasable zones "1.0.0" release (some promoted) file result)
    × (IsReleasable zones "1.0.0" release (some promoted) file result
        → verify_release_gate zones "1.0.0" release (some promoted) file ≡ ok result)
verify_release_gate_iff_example =
    verify_release_gate_iff zones "1.0.0" release (some promoted) file result stable

-- A promotion that changes 1.0.0rc1 to 1.0.0 in the three files, and adds the review.
abbrev repository : Repository
repository = record {
  is_ancestor = λ a b. true;
  diff = λ a b.
      some
        "pyproject.toml\nsrc/gpthands/__init__.py\nsrc/gpthands/stable_server.py\n docs/reviews/v1.0.0.json\n\n";
  show = λ commit path. some "version 1.0.0rc1";
  read_text = λ path. some "version 1.0.0";
  project_version = λ t. some (text "1.0.0rc1");
}

abbrev script_result : ReleaseGateResult
script_result =
    released zones "1.0.0" release
      (some (
        "pyproject.toml" ∷ "src/gpthands/__init__.py" ∷ "src/gpthands/stable_server.py"
        ∷ "docs/reviews/v1.0.0.json" ∷ []))
      baseline "Ann" "https://example.org/r"
      ("docs/reviews/v1.0.0.json" ∷ "pyproject.toml" ∷ "src/gpthands/__init__.py"
        ∷ "src/gpthands/stable_server.py" ∷ [])

gate_passed : run_gate repository zones "1.0.0" release file ≡ ok script_result
unfolding verify_release_gate is_stable_version split three_numbers is_number is_empty all_chars
    is_digit verify_stable is_sha40 is_lower_hex read_review check_review keys elem string_discrete
    equals_int get require_string strip lstrip rstrip cons_trimmed is_space normalize_changed_files
    item_of replace_char is_outside has_prefix has_infix add_sorted text_before check_promotion
    allowed_promotion_files is_true parse_completed_at require_zero is_note run_gate promotion_diff
    read_reviewed_commit changed_since or_raise non_blank_lines split_lines is_line_break onto_first
    validate_version_only_promotion git_show text_version is_prerelease_of is_prerelease_part
    drop_chars check_version_files check_version_file replace_from
gate_passed = refl

run_gate-IsVersionOnly_example :
    (commit : String) × (read_reviewed_commit file ≡ ok commit)
    × ((commit ≡ release) ⊎ IsVersionOnly repository commit release "1.0.0")
run_gate-IsVersionOnly_example =
    run_gate-IsVersionOnly repository zones "1.0.0" release file script_result stable gate_passed
