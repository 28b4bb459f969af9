-- ===== src/Policy/Paths.antt =====
-- `_inside`, `resolve_path` and the checks of protected and secret paths in src/gpthands/policy.py.
-- The file system is the resolution of symbolic links, which may fail.
use gpthands.Prelude.{
  String, ◌<>◌, Bool, true, false, not, ◌&&◌, ◌||◌, List, [], ◌∷◌, ◌++◌, ◌=?◌, if◌then◌else◌, elem,
  any, is_empty, strip, split, join, lower, has_prefix, has_infix, replace_char, policy_error, ok,
  ◌>>=◌, ◌>>◌,
}
use gpthands.Prelude.Errors.{Result, require}
use gpthands.Risk.{path_parts, last_or_empty}
use gpthands.Policy.Defs.{Policy, FilePath}

abbrev pub secret_suffixes : List String
secret_suffixes = ".pem" ∷ ".key" ∷ ".p12" ∷ ".pfx" ∷ []

abbrev pub secret_names : List String
secret_names =
    ".env" ∷ "id_rsa" ∷ "id_ed25519" ∷ "credentials" ∷ "credentials.json" ∷ "service-account.json"
    ∷ ".git-credentials" ∷ []

abbrev pub secret_dir_names : List String
secret_dir_names = ".ssh" ∷ ".aws" ∷ ".gnupg" ∷ []

abbrev pub protected_names : List String
protected_names = ".gpthands.json" ∷ ".gpthands-policy.json" ∷ []

-- _inside: the common path of both is the root.
unfoldable pub inside : FilePath → FilePath → Bool
inside [] candidate = true
inside (part ∷ root) [] = false
inside (part ∷ root) (other ∷ candidate) = part =? other && inside root candidate

-- path.name
unfoldable pub file_name : FilePath → String
file_name path = last_or_empty path

-- What follows the last dot, with the dot, where characters stand on both sides of it.
unfoldable pub suffix_of : List String → String
suffix_of (piece ∷ last ∷ []) =
    if not (is_empty piece) && not (is_empty last) then "." <> last else ""
suffix_of (piece ∷ next ∷ more ∷ pieces) =
    let last = last_or_empty (more ∷ pieces) in if is_empty last then "" else "." <> last
suffix_of _ = ""

-- path.suffix
unfoldable pub suffix : FilePath → String
suffix path = suffix_of (split b'.' (file_name path))

-- str(path)
unfoldable pub path_text : FilePath → String
path_text path = "/" <> join "/" path

unfoldable pub check_protected_path : FilePath → Result (Unit {0})
check_protected_path path =
    require (not (elem (lower (file_name path)) protected_names)) policy_error
      "policy authority file is protected from MCP tools"

unfoldable pub check_secret_path : FilePath → Result (Unit {0})
check_secret_path path = do
  require (not (any (λ part. elem (lower part) secret_dir_names) path)) policy_error
      "access to secret directory is denied"
  require
      (not (
        elem (lower (file_name path)) secret_names
        || has_prefix ".env." (lower (file_name path))
        || elem (lower (suffix path)) secret_suffixes))
      policy_error "access to secret-like file is denied"
  require
      (not (
        has_infix "/.config/gcloud/" (replace_char b'\\' "/" (lower (path_text path)))
        || has_infix "/.config/gh/hosts.yml" (replace_char b'\\' "/" (lower (path_text path)))))
      policy_error "access to credential path is denied"

-- Path.resolve(strict=...) of a path that is absolute but may hold ".." and symbolic links.
abbrev pub Resolver : Type 0
Resolver = Bool → FilePath → Result FilePath

unfoldable pub resolve_path : Resolver → Policy → String → Bool → Result FilePath
resolve_path resolve p target must_exist = do
  require (not (is_empty (strip target))) policy_error "target path must be a non-empty string"
  require (not (has_prefix "/" target)) policy_error "absolute paths are not allowed"
  candidate ← resolve must_exist (p.workspace ++ path_parts target)
  require (inside p.workspace candidate) policy_error "path escapes workspace"
  check_protected_path candidate
  check_secret_path candidate
  ok candidate
