-- ===== src/ReleaseGate/Script.antt =====
-- scripts/verify_release_gate.py: the changes that a promotion may make, and the run of the gate.
use gpthands.Prelude.{
  zero, String, Bool, not, ◌&&◌, ◌||◌, Option, none, some, List, [], ◌∷◌, ◌=?◌, if◌then◌else◌, elem,
  all, is_empty, strip, replace_from, drop_chars, has_prefix, count, release_gate_error, ok, raise,
  ◌>>=◌, ◌>>◌,
}
use gpthands.Prelude.Errors.{Result, require}
use gpthands.Json.{Json, text, obj, get}
use gpthands.Approval.Defs.{split_lines}
use gpthands.ReleaseGate.Defs.{
  ZoneOf, ReviewFile, ReleaseGateResult, is_number, is_sha40, is_stable_version,
  verify_release_gate,
}

-- What git and the working tree answer: whether one commit is an ancestor of another, the names that
-- `git diff --name-only` prints between two, a file of a commit, a file of the tree, and the version that
-- tomllib reads in the text of a pyproject.toml.
pub record Repository : Type 0 where
  pub is_ancestor : String → String → Bool
  pub diff : String → String → Option String
  pub show : String → String → Option String
  pub read_text : String → Option String
  pub project_version : String → Option Json

-- _VERSION_FILES
abbrev pub version_files : List String
version_files = "pyproject.toml" ∷ "src/gpthands/__init__.py" ∷ "src/gpthands/stable_server.py" ∷ []

-- (?:a|b|rc)\d+
unfoldable pub is_prerelease_part : String → Bool
is_prerelease_part t =
    (has_prefix "a" t && is_number (drop_chars 1 t))
    || (has_prefix "b" t && is_number (drop_chars 1 t))
    || (has_prefix "rc" t && is_number (drop_chars 2 t))

-- prerelease_pattern.fullmatch(reviewed)
unfoldable pub is_prerelease_of : String → String → Bool
is_prerelease_of stable reviewed =
    has_prefix stable reviewed && is_prerelease_part (drop_chars (count stable) reviewed)

unfoldable pub non_blank_lines : List String → List String
non_blank_lines [] = []
non_blank_lines (line ∷ lines) =
    let rest = non_blank_lines lines in if is_empty (strip line) then rest else strip line ∷ rest

-- The reviewed commit that the metadata names.
unfoldable pub read_reviewed_commit : ReviewFile → Result String
read_reviewed_commit file = elim file.content [
  | none ↦ raise release_gate_error "cannot read stable review metadata before Git verification"
  | some (obj fields) ↦ elim (get "reviewed_commit" fields) [
    | some (text commit) ↦
        if is_sha40 commit
        then ok commit
        else raise release_gate_error "reviewed_commit must be a lowercase 40-character Git SHA"
    | _ ↦ raise release_gate_error "reviewed_commit must be a lowercase 40-character Git SHA"
  ]
  | some _ ↦ raise release_gate_error "stable review metadata root must be an object"
]

unfoldable pub or_raise : Option String → String → Result String
or_raise none message = raise release_gate_error message
or_raise (some t) message = ok t

unfoldable pub text_version : Option Json → Result String
text_version none = raise release_gate_error "cannot determine reviewed baseline package version"
text_version (some (text version)) = ok version
text_version (some _) =
    raise release_gate_error "reviewed baseline package version must be a string"

module _ (r : Repository) where
  -- _git_show
  unfoldable pub git_show : String → String → Result String
  git_show commit path = or_raise (r.show commit path) "cannot read reviewed baseline file"

  -- One version file against the reviewed one.
  unfoldable pub check_version_file : String → String → String → String → Result (Unit {0})
  check_version_file reviewed_commit reviewed stable path = do
    baseline ← git_show reviewed_commit path
    require (not (replace_from zero reviewed stable baseline =? baseline)) release_gate_error
        "reviewed baseline file does not contain the reviewed version"
    current ← or_raise (r.read_text path) "cannot read stable promotion file"
    require (current =? replace_from zero reviewed stable baseline) release_gate_error
        "stable promotion file contains changes beyond exact substitution"

  unfoldable pub check_version_files : String → String → String → List String → Result (Unit {0})
  check_version_files reviewed_commit reviewed stable [] = ok tt
  check_version_files reviewed_commit reviewed stable (path ∷ paths) = do
    check_version_file reviewed_commit reviewed stable path
    check_version_files reviewed_commit reviewed stable paths

  -- _validate_version_only_promotion
  unfoldable pub validate_version_only_promotion : String → String → List String → Result (Unit {0})
  validate_version_only_promotion reviewed_commit stable changed = do
    baseline ← git_show reviewed_commit "pyproject.toml"
    reviewed ← text_version (r.project_version baseline)
    require (is_prerelease_of stable reviewed) release_gate_error
        "reviewed baseline version is not a direct prerelease of the stable version"
    require (all (λ path. elem path changed) version_files) release_gate_error
        "stable promotion must update all synchronized version files"
    check_version_files reviewed_commit reviewed stable version_files

  -- What follows where the release is another commit than the reviewed one.
  unfoldable pub changed_since : String → String → String → Result (List String)
  changed_since version reviewed_commit current = do
    require (r.is_ancestor reviewed_commit current) release_gate_error
        "reviewed_commit is not an ancestor of the stable release commit"
    names ← or_raise (r.diff reviewed_commit current) "cannot inspect stable promotion diff"
    validate_version_only_promotion reviewed_commit version (non_blank_lines (split_lines names))
    ok (non_blank_lines (split_lines names))

  -- _promotion_diff
  unfoldable pub promotion_diff : String → String → ReviewFile → Result (String × List String)
  promotion_diff version current file = do
    reviewed_commit ← read_reviewed_commit file
    let since = changed_since version reviewed_commit current
    changed ← if reviewed_commit =? current then ok [] else since
    ok (reviewed_commit, changed)

  -- The `try` of main, of the version that the tree's pyproject.toml names
  unfoldable pub run_gate : ZoneOf → String → String → ReviewFile → Result ReleaseGateResult
  run_gate zone_of version current file =
      let promoted = promotion_diff version current file >>= λ found.
      verify_release_gate zone_of version current (some found.1) file in
      if is_stable_version version
      then promoted
      else verify_release_gate zone_of version current none file
