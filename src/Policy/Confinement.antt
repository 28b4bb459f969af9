-- ===== src/Policy/Confinement.antt =====
-- What a path that `resolve_path` returns satisfies, whatever the file system does.
use gpthands.Prelude.{
  String, Bool, true, false, [], ◌∷◌, ◌++◌, ◌≡◌, ◌↔◌, refl, arith, elem, any, is_empty, strip,
  lower, has_prefix, has_infix, replace_char, ok,
}
use gpthands.Risk.{path_parts}
use gpthands.Policy.Defs.{Policy, FilePath}
use gpthands.Policy.Paths.{
  Resolver, resolve_path, inside, file_name, suffix, path_text, check_protected_path,
  check_secret_path, protected_names, secret_names, secret_dir_names, secret_suffixes,
}

-- The path is neither the policy file nor one that may hold a secret.
pub record IsOpen (path : FilePath) : Type 0 where
  pub name_free : elem (lower (file_name path)) protected_names ≡ false
  pub dirs_free : any (λ part. elem (lower part) secret_dir_names) path ≡ false
  pub not_secret : elem (lower (file_name path)) secret_names ≡ false
  pub not_env : has_prefix ".env." (lower (file_name path)) ≡ false
  pub not_key : elem (lower (suffix path)) secret_suffixes ≡ false
  pub not_gcloud :
      has_infix "/.config/gcloud/" (replace_char b'\\' "/" (lower (path_text path))) ≡ false
  pub not_gh :
      has_infix "/.config/gh/hosts.yml" (replace_char b'\\' "/" (lower (path_text path))) ≡ false

module _ (resolve : Resolver) (p : Policy) (target : String) (must_exist : Bool)
    (path : FilePath) where
  -- resolve_path returns a path exactly where the target is relative and not blank, the file system
  -- resolves it to that path, the path lies inside the workspace, and it is neither the policy file
  -- nor one that may hold a secret.
  pub resolve_path_iff : (resolve_path resolve p target must_exist ≡ ok path) ↔ (
      (is_empty (strip target) ≡ false)
      × (has_prefix "/" target ≡ false)
      × (resolve must_exist (p.workspace ++ path_parts target) ≡ ok path)
      × (inside p.workspace path ≡ true)
      × IsOpen path)
  unfolding resolve_path check_protected_path check_secret_path
  resolve_path_iff = (λ h. ground arith, λ x. ground arith)

-- What lies inside the workspace is the workspace followed by some parts.
inside-append :
    (root path : FilePath) → inside root path ≡ true → (rest : FilePath) × (path ≡ root ++ rest)
unfolding inside
inside-append [] path h = (path, refl)
inside-append (part ∷ root) [] h = cc
inside-append (part ∷ root) (other ∷ path) h =
    let (rest, e) = inside-append root path (ground arith) in (rest, ground arith)
