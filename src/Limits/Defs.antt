-- ===== src/Limits/Defs.antt =====
-- `ActionLimiter` of src/gpthands/limits.py. Times are in microseconds; each call reads the clock once.
-- The semaphore counts its free slots, and an acquire that finds none within the wait fails.
use gpthands.Prelude.{
  ℕ, ◌+◌, ◌-◌, ◌&&◌, List, [], ◌∷◌, ◌++◌, ◌==◌, leb, if◌then◌else◌, length, limit_error,
  value_error, ok, raise, ◌>>◌,
}
use gpthands.Prelude.Errors.{Result, require}
use gpthands.Json.{ℤ, pos}

pub record ActionLimiter : Type 0 where
  pub requests_per_minute : ℕ
  pub max_concurrent : ℕ
  pub queue_seconds : ℕ
  pub times : List ℕ
  pub free_slots : ℕ

-- ActionLimiter.__init__
unfoldable pub new_limiter : ℤ → ℤ → ℤ → Result ActionLimiter
new_limiter (pos requests) (pos concurrent) (pos queue) = do
  require (leb 1 requests && leb 1 concurrent) value_error "invalid limiter settings"
  ok (record {
    requests_per_minute = requests;
    max_concurrent = concurrent;
    queue_seconds = queue;
    times = [];
    free_slots = concurrent;
  })
new_limiter _ _ _ = raise value_error "invalid limiter settings"

abbrev pub minute : ℕ
minute = 60000000

-- `while self._times and self._times[0] <= cutoff`, the cutoff being 60 seconds ago
unfoldable pub drop_old : ℕ → List ℕ → List ℕ
drop_old now [] = []
drop_old now (t ∷ ts) = let rest = drop_old now ts in if leb (t + minute) now then rest else t ∷ ts

-- _reserve_rate
unfoldable pub reserve_rate : ℕ → ActionLimiter → Result (Unit {0}) × ActionLimiter
reserve_rate now l =
    let times = drop_old now l.times in
    if leb l.requests_per_minute (length times)
    then (raise limit_error "tool request rate limit exceeded", record l { times = times })
    else (ok tt, record l { times = times ++ now ∷ [] })

-- The answer of the semaphore to `action`, at the moment a slot is free or the wait is over.
unfoldable pub acquire_slot : ActionLimiter → Result (Unit {0}) × ActionLimiter
acquire_slot l =
    if l.free_slots == 0
    then (raise limit_error "maximum concurrent tool actions reached", l)
    else (ok tt, record l { free_slots = l.free_slots - 1 })

-- The `finally` of `action`.
unfoldable pub release_slot : ActionLimiter → ActionLimiter
release_slot l = record l { free_slots = l.free_slots + 1 }
