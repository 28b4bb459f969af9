-- ===== src/Limits/Quota.antt =====
-- What the limiter of src/gpthands/limits.py promises.
use gpthands.Prelude.{ℕ, ◌+◌, ◌≤◌, ◌≡◌, refl, arith, ok, [], length}
use gpthands.Json.{pos}
use gpthands.Limits.Defs.{ActionLimiter, new_limiter}
use gpthands.Limits.Window.{recent, length-recent}
use gpthands.Limits.Run.{State, Steps, started, IsLimited, Steps-IsLimited}

module _ (requests concurrent queue : ℕ) (l : ActionLimiter)
    (made : new_limiter (pos requests) (pos concurrent) (pos queue) ≡ ok l) (s : State)
    (run : Steps (started l) s) where
  no_times : l.times ≡ []
  unfolding new_limiter
  no_times = ground (arith, made)

  started-IsLimited : IsLimited requests concurrent (started l)
  unfolding new_limiter
  started-IsLimited = record {
    limit_kept = ground (arith, made);
    slots_kept = ground (arith, made);
    few = rw no_times (omega arith);
    same_window = λ now later. rw no_times refl;
  }

  -- In every state of every run of a new limiter, in any interleaving of calls, where a call may be held
  -- up between its reading of the clock and the lock: of the calls let through so far, no more than
  -- requests_per_minute have a reading in the 60 seconds that end with the latest reading that any call
  -- has brought to the lock; and the running calls and the free slots make max_concurrent,
  -- so that no more than that run at once.
  pub run_quota :
      (length (recent s.latest s.history) ≤ requests)
      × (s.limiter.free_slots + s.running ≡ concurrent)
      × (s.running ≤ concurrent)
  run_quota =
      let h = Steps-IsLimited requests concurrent (started l) s run started-IsLimited in
      (
        omega (
          arith,
          h.same_window s.latest (omega arith),
          length-recent s.latest s.limiter.times,
          h.few,
        ),
        h.slots_kept,
        omega (arith, h.slots_kept),
      )
