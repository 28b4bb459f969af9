-- ===== src/ReleaseGate/Defs.antt =====
-- `verify_release_gate` of src/gpthands/release_gate.py. The review file is given as the file system
-- and json.loads give it, and datetime.fromisoformat by whether the time it reads has a zone.
use Prim.Native.Char.{code}
use gpthands.Prelude.{
  ℕ, String, ◌<>◌, Bool, true, false, not, ◌&&◌, ◌||◌, Option, none, some, List, [], ◌∷◌, ◌==◌,
  ◌=?◌, leb, ltb, if◌then◌else◌, elem, all, is_empty, all_chars, strip, split, replace_char,
  has_prefix, has_infix, count, release_gate_error, ok, raise, ◌>>=◌, ◌>>◌,
}
use gpthands.Prelude.Errors.{Result, require}
use gpthands.Json.{pos, Json, null, bool, int, text, obj, Fields, get, equals_int}
use gpthands.Policy.Load.{keys}

unfoldable pub is_digit : ℕ → Bool
is_digit c = leb b'0' c && leb c b'9'

unfoldable pub is_lower_hex : ℕ → Bool
unfolding is_digit
is_lower_hex c = is_digit c || (leb b'a' c && leb c b'f')

unfoldable pub is_number : String → Bool
is_number part = not (is_empty part) && all_chars is_digit part

-- _STABLE_VERSION on the parts between the dots
unfoldable pub three_numbers : List String → Bool
three_numbers (major ∷ minor ∷ patch ∷ []) = is_number major && (is_number minor && is_number patch)
three_numbers _ = false

unfoldable pub is_stable_version : String → Bool
is_stable_version version = three_numbers (split b'.' version)

-- _SHA40
unfoldable pub is_sha40 : String → Bool
is_sha40 commit = (count commit == 40) && all_chars is_lower_hex commit

abbrev pub review_path : String → String
review_path version = "docs/reviews/v" <> (version <> ".json")

unfoldable pub allowed_promotion_files : String → List String
allowed_promotion_files version =
    review_path version
    ∷ "pyproject.toml"
    ∷ "src/gpthands/__init__.py"
    ∷ "src/gpthands/stable_server.py"
    ∷ "README.md"
    ∷ "ROADMAP.md"
    ∷ []

abbrev pub allowed_fields : List String
allowed_fields =
    "schema_version" ∷ "status" ∷ "version" ∷ "reviewed_commit" ∷ "reviewer"
    ∷ "independent_reviewer_attested" ∷ "completed_at" ∷ "report_url" ∷ "critical_open"
    ∷ "high_open" ∷ "notes" ∷ []

unfoldable pub require_string : Fields → String → Result String
require_string fields key = elim (get key fields) [
  | some (text t) ↦
      if is_empty (strip t)
      then raise release_gate_error "review metadata field must be a non-empty string"
      else ok (strip t)
  | _ ↦ raise release_gate_error "review metadata field must be a non-empty string"
]

-- The order of texts, by which `sorted` goes.
unfoldable pub text_before : String → String → Bool
text_before s String.[] = false
text_before String.[] (String.◌∷◌ d t) = true
text_before (String.◌∷◌ c s) (String.◌∷◌ d t) =
    ltb (code c) (code d) || ((code c == code d) && text_before s t)

-- A set, held as the sorted tuple that the function returns of it.
unfoldable pub add_sorted : String → List String → List String
add_sorted x [] = x ∷ []
add_sorted x (y ∷ ys) =
    if x =? y then y ∷ ys else if text_before x y then x ∷ y ∷ ys else y ∷ add_sorted x ys

-- str(value).replace("\\", "/").strip()
unfoldable pub item_of : String → String
item_of value = strip (replace_char b'\\' "/" value)

unfoldable pub is_outside : String → Bool
is_outside item =
    has_prefix "/" item || (has_prefix "../" item || has_infix "/../" ("/" <> (item <> "/")))

unfoldable pub normalize_changed_files : List String → Result (List String)
normalize_changed_files [] = ok []
normalize_changed_files (value ∷ values) = do
  require (is_empty (item_of value) || not (is_outside (item_of value))) release_gate_error
      "invalid promotion path"
  items ← normalize_changed_files values
  ok (if is_empty (item_of value) then items else add_sorted (item_of value) items)

-- What stands at docs/reviews/vX.Y.Z.json; `content` is none where it cannot be read or is not JSON.
pub record ReviewFile : Type 0 where
  pub symlink : Bool
  pub is_file : Bool
  pub content : Option Json

pub record ReleaseGateResult : Type 0 where
  pub version : String
  pub stable : Bool
  pub review_required : Bool
  pub review_file : Option String
  pub reviewed_commit : Option String
  pub reviewer : Option String
  pub report_url : Option String
  pub promotion_changed_files : List String

abbrev pub prerelease : String → ReleaseGateResult
prerelease version = record {
  version = version;
  stable = false;
  review_required = false;
  review_file = none;
  reviewed_commit = none;
  reviewer = none;
  report_url = none;
  promotion_changed_files = [];
}

-- data.get(key) is of type int, not negative and 0
unfoldable pub require_zero : Fields → String → Result (Unit {0})
require_zero fields key = elim (get key fields) [
  | some (int (pos n)) ↦ require (n == 0) release_gate_error "stable release blocked"
  | _ ↦ raise release_gate_error "open findings must be a non-negative integer"
]

unfoldable pub is_true : Option Json → Bool
is_true (some (bool true)) = true
is_true _ = false

unfoldable pub is_note : Option Json → Bool
is_note none = true
is_note (some null) = true
is_note (some (text t)) = true
is_note _ = false

-- The files between the reviewed baseline and the release.
unfoldable pub check_promotion :
    String → String → String → Option (List String) → List String → Result (Unit {0})
check_promotion version current reviewed none changed =
    require (reviewed =? current) release_gate_error
      "release commit differs from reviewed baseline but promotion diff was not supplied"
check_promotion version current reviewed (some files) changed = do
  require ((reviewed =? current) || all (λ f. elem f (allowed_promotion_files version)) changed)
      release_gate_error "stable promotion contains unreviewed files"
  require ((reviewed =? current) || elem (review_path version) changed) release_gate_error
      "stable promotion must add/update the exact external review metadata file"

-- datetime.fromisoformat: whether the time has a zone, or none where the text is no time
abbrev pub ZoneOf : Type 0
ZoneOf = String → Option Bool

unfoldable pub parse_completed_at : ZoneOf → String → Result (Unit {0})
parse_completed_at zone_of value = elim (zone_of (replace_char b'Z' "+00:00" value)) [
  | none ↦ raise release_gate_error "review completed_at must be ISO-8601"
  | some zone ↦ require zone release_gate_error "review completed_at must include a timezone"
]

abbrev pub files_of : Option (List String) → List String
files_of none = []
files_of (some files) = files

unfoldable pub read_review : ReviewFile → Result Fields
read_review file = do
  require (not file.symlink) release_gate_error "stable review metadata must not be a symlink"
  require file.is_file release_gate_error "stable release requires independent review metadata"
  elim file.content [
    | none ↦ raise release_gate_error "cannot read stable review metadata"
    | some (obj fields) ↦ ok fields
    | some _ ↦ raise release_gate_error "stable review metadata root must be an object"
  ]

module _ (zone_of : ZoneOf) (version current : String) (files : Option (List String)) where
  -- The tests on the review record, in their order.
  unfoldable pub check_review : Fields → Result ReleaseGateResult
  check_review fields = do
    require (all (λ k. elem k allowed_fields) (keys fields)) release_gate_error
        "unknown stable review metadata fields"
    require (equals_int (get "schema_version" fields) 1) release_gate_error
        "stable review metadata schema_version must be 1"
    status ← require_string fields "status"
    require (status =? "approved") release_gate_error
        "stable review metadata status must be 'approved'"
    reviewed_version ← require_string fields "version"
    require (reviewed_version =? version) release_gate_error
        "stable review metadata version does not match package version"
    reviewed ← require_string fields "reviewed_commit"
    require (is_sha40 reviewed) release_gate_error
        "reviewed_commit must be a lowercase 40-character Git SHA"
    changed ← normalize_changed_files (files_of files)
    check_promotion version current reviewed files changed
    reviewer ← require_string fields "reviewer"
    require (is_true (get "independent_reviewer_attested" fields)) release_gate_error
        "independent_reviewer_attested must be true"
    completed_at ← require_string fields "completed_at"
    parse_completed_at zone_of completed_at
    report_url ← require_string fields "report_url"
    require (has_prefix "https://" report_url) release_gate_error "report_url must use https://"
    require_zero fields "critical_open"
    require_zero fields "high_open"
    require (is_note (get "notes" fields)) release_gate_error "notes must be a string when present"
    ok (record {
      version = version;
      stable = true;
      review_required = true;
      review_file = some (review_path version);
      reviewed_commit = some reviewed;
      reviewer = some reviewer;
      report_url = some report_url;
      promotion_changed_files = changed;
    })

  unfoldable pub verify_stable : ReviewFile → Result ReleaseGateResult
  verify_stable file = do
    require (is_sha40 current) release_gate_error
        "current commit must be a lowercase 40-character Git SHA"
    fields ← read_review file
    check_review fields

  unfoldable pub verify_release_gate : ReviewFile → Result ReleaseGateResult
  verify_release_gate file =
      if is_stable_version version then verify_stable file else ok (prerelease version)
