-- ===== src/Locking/Defs.antt =====
-- `FileLock` of src/gpthands/locking.py on POSIX. Times are in microseconds.
use gpthands.Prelude.{
  ℕ, zero, suc, ◌+◌, Bool, true, false, not, Option, none, some, leb, if◌then◌else◌, lock_error,
  os_error, ok, raise, ◌>>◌,
}
use gpthands.Prelude.Errors.{Result, require}

-- whether `_fd` is open, the timeout, and `_held`
pub record FileLock : Type 0 where
  pub has_fd : Bool
  pub timeout : ℕ
  pub held : Bool

-- What the file system says of a lock's path: whether the parent is there or could be made, whether
-- the path is a symbolic link, whether it opens, and of what opened whether it is a regular file, is
-- the user's, and takes the mode.
pub record LockPath : Type 0 where
  pub parent : Bool
  pub is_symlink : Bool
  pub opens : Bool
  pub is_regular : Bool
  pub is_owned : Bool
  pub takes_mode : Bool

-- FileLock.__init__
unfoldable pub new_lock : LockPath → ℕ → Result FileLock
new_lock path timeout = do
  require path.parent os_error "mkdir"
  require (not path.is_symlink) lock_error "lock path must not be a symlink"
  require path.opens os_error "open"
  require path.is_regular lock_error "lock path must be a regular file"
  require path.is_owned lock_error "lock file must be owned by current user"
  require path.takes_mode os_error "fchmod"
  ok (record { has_fd = true; timeout = timeout; held = false })

-- FileLock.release, where flock with LOCK_UN does not fail
unfoldable pub release : FileLock → FileLock
release lock =
    if lock.held
    then record { has_fd = lock.has_fd; timeout = lock.timeout; held = false }
    else lock

-- FileLock.close
unfoldable pub close : FileLock → FileLock
close lock =
    if lock.has_fd
    then record { has_fd = false; timeout = lock.timeout; held = (release lock).held }
    else lock

unfoldable pub hold : FileLock → FileLock
hold lock = record { has_fd = lock.has_fd; timeout = lock.timeout; held = true }

-- `taken k` says whether flock takes the lock at attempt k, `clock 0` is the time of the call, and
-- `clock (suc k)` what the clock says once attempt k has failed.
module _ (taken : ℕ → Bool) (clock : ℕ → ℕ) (lock : FileLock) where
  -- The loop of acquire from attempt k on, with fuel for as many attempts.
  unfoldable pub attempts : ℕ → ℕ → ℕ → Option (Result FileLock)
  attempts zero deadline k = none
  attempts (suc fuel) deadline k =
      let later = attempts fuel deadline (suc k) in
      if taken k
      then some (ok (hold lock))
      else if leb deadline (clock (suc k))
      then some (raise lock_error "timed out acquiring lock")
      else later

  -- FileLock.acquire
  unfoldable pub acquire : ℕ → Option (Result FileLock)
  acquire fuel = attempts fuel (clock 0 + lock.timeout) 0
