-- ===== src/Approval/Open.antt =====
-- How an `ApprovalManager` of src/gpthands/approval.py is made: the key's file and the replay store.
use gpthands.Prelude.{
  ℕ, String, Bool, true, not, ◌||◌, ◌==◌, ◌≡◌, arith, count, take_chars, if◌then◌else◌, ok, raise,
  approval_error, os_error, ◌>>=◌, ◌>>◌,
}
use gpthands.Prelude.Errors.{Result, require}
use gpthands.Approval.Defs.{UsedFile, Store, load_consumed}

-- The key's path as `stat` sees it, with the bytes of the file.
pub record KeyFile : Type 0 where
  pub posix : Bool
  pub symlink : Bool
  pub exists : Bool
  pub regular : Bool
  pub private : Bool
  pub owned : Bool
  pub bytes : String

-- The file that is there.
unfoldable pub read_key : KeyFile → Result String
read_key f = do
  require f.regular approval_error "approval key must be a regular file"
  require (not f.posix || f.private) approval_error "approval key permissions must be 0600"
  require (not f.posix || f.owned) approval_error "approval key must be owned by current user"
  require (count f.bytes == 32) approval_error "approval key has invalid length"
  ok f.bytes

-- The file after os.open with O_EXCL and one os.write, which may take only some of the bytes.
abbrev pub created_key : KeyFile → String → ℕ → KeyFile
created_key f random taken = record f {
  exists = true;
  regular = true;
  private = true;
  owned = true;
  bytes = take_chars taken random;
}

-- _load_or_create_key_unlocked, with the bytes that secrets.token_bytes gives, whether the file can be
-- created, and how many bytes os.write takes
unfoldable pub load_or_create_key : Bool → String → ℕ → KeyFile → Result String × KeyFile
load_or_create_key creates random taken f =
    if f.symlink
    then (raise approval_error "approval key must not be a symlink", f)
    else if f.exists
    then (read_key f, f)
    else if not creates
    then (raise os_error "open", f)
    else (ok random, created_key f random taken)

-- ApprovalManager.__init__: the key and the store, or what is raised; `locks` says whether the two lock
-- files can be opened and taken.
unfoldable pub open_manager :
    Bool → Bool → String → ℕ → KeyFile → UsedFile → Result (String × Store) × KeyFile
open_manager locks creates random taken f used =
    let (found, f') = load_or_create_key creates random taken f in
    if used.symlink
    then (raise approval_error "approval replay store must not be a symlink", f)
    else if not locks
    then (raise approval_error "timed out acquiring lock", f)
    else (
      found >>= λ key.
          load_consumed used >>= λ consumed. ok (key, record { file = used; consumed = consumed }),
      f',
    )

-- A key that was created or read is read again by every later manager, if os.write took all of it.
load_or_create_key-again :
    (creates again : Bool) (random other key : String) (taken taken' : ℕ) (f : KeyFile)
    → take_chars taken random ≡ random
    → count random ≡ 32
    → (load_or_create_key creates random taken f).0 ≡ ok key
    → load_or_create_key again other taken' (load_or_create_key creates random taken f).1
      ≡ (ok key, (load_or_create_key creates random taken f).1)
unfolding load_or_create_key read_key
load_or_create_key-again creates again random other key taken taken' f all long given = ground arith
