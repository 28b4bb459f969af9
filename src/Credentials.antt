-- ===== src/Credentials.antt =====
-- The names, the values and the choice of the store in src/gpthands/credentials.py. The calls of the
-- platforms' stores are given by what they return.
use gpthands.Prelude.{
  ℕ, String, Bool, not, ◌||◌, Option, none, some, leb, len, count, ◌=?◌, if◌then◌else◌, is_empty,
  strip, has_infix, credential_error, ok, err, raise, ◌>>=◌, ◌>>◌,
}
use gpthands.Prelude.Errors.{Result, require}

-- What the platform says: platform.system(), whether the Keychain API loads, the path of secret-tool with
-- whether it is a regular file, and the calls that read, write and delete a credential.
pub record Platform : Type 0 where
  pub system : String
  pub keychain : Bool
  pub secret_tool : Option (Result (String × Bool))
  pub read : String → String → Result String
  pub write : String → String → String → Result (Unit {0})
  pub delete : String → String → Result Bool

abbrev pub max_secret_bytes : ℕ
max_secret_bytes = 2560

-- _name
unfoldable pub credential_name : String → Result String
credential_name value = do
  require
      (not (
        is_empty (strip value)
        || not (leb (count (strip value)) 128)
        || has_infix "\r" (strip value)
        || has_infix "\n" (strip value)
        || has_infix "\0" (strip value)))
      credential_error "credential name is invalid"
  ok (strip value)

-- _secret_bytes
unfoldable pub secret_bytes : String → Result String
secret_bytes secret = do
  require (not (is_empty secret || has_infix "\0" secret)) credential_error
      "credential value is invalid"
  require (leb (len secret) max_secret_bytes) credential_error
      "credential exceeds 2560-byte portable limit"
  ok secret

-- _linux_tool
unfoldable pub linux_tool : Option (Result (String × Bool)) → Result String
linux_tool none = raise credential_error "Secret Service helper `secret-tool` is unavailable"
linux_tool (some (err e)) = raise credential_error "Secret Service helper cannot be resolved safely"
linux_tool (some (ok (path, is_file))) = do
  require is_file credential_error "Secret Service helper is not a regular file"
  ok path

module _ (p : Platform) where
  -- CredentialStore.backend
  unfoldable pub backend : Result String
  backend =
      let linux = linux_tool p.secret_tool >>= λ path. ok "linux-secret-service" in
      if p.system =? "Darwin"
      then if p.keychain
        then ok "macos-keychain"
        else raise credential_error "macOS Security.framework Keychain API is unavailable"
      else if p.system =? "Windows"
      then ok "windows-credential-manager"
      else if p.system =? "Linux"
      then linux
      else raise credential_error "no supported OS credential store is available"

  -- CredentialStore.set
  unfoldable pub set_credential : String → String → Result (Unit {0})
  set_credential name secret = do
    checked ← credential_name name
    value ← secret_bytes secret
    store ← backend
    p.write store checked value

  -- CredentialStore.get
  unfoldable pub get_credential : String → Result String
  get_credential name = do checked ← credential_name name; store ← backend; p.read store checked

  -- CredentialStore.delete
  unfoldable pub delete_credential : String → Result Bool
  delete_credential name = do
    checked ← credential_name name
    store ← backend
    p.delete store checked
