-- ===== src/Bootstrap/Wheel.antt =====
-- What src/scripts/release_bootstrap.py asks of a wheel and of its digest.
use gpthands.Prelude.{
  ℕ, String, Bool, not, ◌&&◌, ◌||◌, Option, none, some, List, [], ◌∷◌, ◌==◌, ◌=?◌, leb,
  if◌then◌else◌, all_chars, is_empty, strip, lower, count, has_suffix, bootstrap_error, zip_error,
  ok, raise, ◌>>=◌, ◌>>◌,
}
use gpthands.Prelude.Errors.{Result, require}
use gpthands.ReleaseGate.Defs.{is_lower_hex}

-- A wheel: what the file system says of its path, the digest of its bytes, its suffix, and the
-- members that zipfile finds, each with the Name and the Version that the email parser reads in it.
pub record Wheel : Type 0 where
  pub is_symlink : Bool
  pub is_file : Bool
  pub sha256 : String
  pub suffix : String
  pub members : Option (List (String × String × String))

-- _normalize_sha256
unfoldable pub normalize_sha256 : String → Result String
normalize_sha256 value = do
  require (count (lower (strip value)) == 64 && all_chars is_lower_hex (lower (strip value)))
      bootstrap_error "expected wheel SHA-256 must be exactly 64 hexadecimal characters"
  ok (lower (strip value))

unfoldable pub verify_wheel_sha256 : Wheel → String → Result String
verify_wheel_sha256 wheel expected = do
  require (not wheel.is_symlink) bootstrap_error "wheel must not be a symlink"
  require wheel.is_file bootstrap_error "wheel does not exist or is not a regular file"
  digest ← normalize_sha256 expected
  require (wheel.sha256 =? digest) bootstrap_error "wheel SHA-256 mismatch"
  ok wheel.sha256

-- The members whose name ends in .dist-info/METADATA.
unfoldable pub metadata_of : List (String × String × String) → List (String × String)
metadata_of [] = []
metadata_of (member ∷ members) =
    let rest = metadata_of members in
    if has_suffix ".dist-info/METADATA" member.0 then (member.1, member.2) ∷ rest else rest

unfoldable pub is_version_char : ℕ → Bool
is_version_char c =
    (leb b'0' c && leb c b'9')
    || (leb b'a' c && leb c b'z')
    || (leb b'A' c && leb c b'Z')
    || c == b'.'
    || c == b'-'
    || c == b'_'
    || c == b'+'

unfoldable pub release_of : List (String × String) → Result (String × String)
release_of ((name, version) ∷ []) = do
  require
      (lower (strip name) =? "gpthands"
        && not (is_empty (strip version))
        && all_chars is_version_char (strip version))
      bootstrap_error "wheel metadata is not a valid GPTHands release"
  ok (lower (strip name), strip version)
release_of _ = raise bootstrap_error "wheel must contain exactly one dist-info/METADATA"

-- inspect_wheel: the name and the version; zipfile.BadZipFile where there are no members to read
unfoldable pub inspect_wheel : Wheel → Result (String × String)
inspect_wheel wheel = do
  require (not wheel.is_symlink) bootstrap_error "wheel must not be a symlink"
  require wheel.is_file bootstrap_error "installer input must be a regular .whl file"
  require (wheel.suffix =? ".whl") bootstrap_error "installer input must be a .whl file"
  elim wheel.members [
    | none ↦ raise zip_error "File is not a zip file"
    | some members ↦ release_of (metadata_of members)
  ]
