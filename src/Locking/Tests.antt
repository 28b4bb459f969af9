-- ===== src/Locking/Tests.antt =====
-- A lock that another process gives up.
use gpthands.Prelude.{
  ℕ, suc, ◌+◌, ◌*◌, ◌≤◌, true, false, some, ◌≡◌, ◌⊎◌, refl, arith, ◌==◌, ok, raise, lock_error,
}
use gpthands.Locking.Defs.{FileLock, LockPath, new_lock, hold, attempts, acquire, release, close}
use gpthands.Locking.Acquired.{IsTaken, IsLate, acquire-ends}

abbrev path : LockPath
path = record {
  parent = true;
  is_symlink = false;
  opens = true;
  is_regular = true;
  is_owned = true;
  takes_mode = true;
}

abbrev free : FileLock
free = record { has_fd = true; timeout = 15000; held = false }

created : new_lock path 15000 ≡ ok free
unfolding new_lock
created = refl

abbrev clock : ℕ → ℕ
clock k = 10000 * k

taken_later : acquire (λ k. k == 1) clock free 3 ≡ some (ok (hold free))
unfolding acquire attempts
taken_later = refl

kept_busy : acquire (λ k. false) clock free 3 ≡ some (raise lock_error "timed out acquiring lock")
unfolding acquire attempts
kept_busy = refl

given_up : (release (hold free) ≡ free) × ((close (hold free)).held ≡ false)
unfolding release close hold
given_up = (refl, refl)

forward : clock 0 ≤ clock 1
forward = omega arith

slept : (k : ℕ) → clock (suc k) + 10000 ≤ clock (suc (suc k))
slept k = omega arith

acquire-ends_example :
    IsTaken (λ k. k == 1) clock free (clock 0 + 15000) 0 (acquire (λ k. k == 1) clock free 3)
    ⊎ IsLate (λ k. k == 1) clock free (clock 0 + 15000) 0 (acquire (λ k. k == 1) clock free 3)
acquire-ends_example = acquire-ends (λ k. k == 1) clock free 2 forward slept (omega arith)
