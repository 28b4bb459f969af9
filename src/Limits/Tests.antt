-- ===== src/Limits/Tests.antt =====
-- Two calls on a limiter of two requests a minute and one slot.
use gpthands.Prelude.{◌+◌, ◌≤◌, ◌≡◌, refl, arith, ok, [], ◌∷◌, length}
use gpthands.Json.{pos}
use gpthands.Limits.Defs.{ActionLimiter, new_limiter, reserve_rate, drop_old}
use gpthands.Limits.Run.{
  State, Steps, reserve, acquire, done, more, after_reserve, after_acquire, started, read,
  after_read, later_of,
}
use gpthands.Limits.Window.{recent}
use gpthands.Limits.Quota.{run_quota}

abbrev limiter : ActionLimiter
limiter = record {
  requests_per_minute = 2;
  max_concurrent = 1;
  queue_seconds = 2;
  times = [];
  free_slots = 1;
}

made : new_limiter (pos 2) (pos 1) (pos 2) ≡ ok limiter
unfolding new_limiter
made = refl

-- Two calls read the clock, and the second one takes the lock first.
abbrev two_readings : State
two_readings = after_read 2000 (after_read 1000 (started limiter))

abbrev second_first : State
second_first = after_reserve 2000 (1000 ∷ []) two_readings

abbrev both : State
both = after_reserve 1000 [] second_first

both-Steps : Steps (started limiter) (after_acquire both)
unfolding after_read after_reserve reserve_rate drop_old later_of
both-Steps =
    more _ both _
      (more _ second_first _
        (more _ two_readings _
          (more _ (after_read 1000 (started limiter)) _
            (more _ (started limiter) _ (done _) (read 1000 (started limiter) (omega arith)))
            (read 2000 (after_read 1000 (started limiter)) (omega arith)))
          (reserve 2000 [] (1000 ∷ []) two_readings refl))
        (reserve 1000 [] [] second_first refl))
      (acquire both (omega arith))

run_quota_example :
    (length (recent (after_acquire both).latest (after_acquire both).history) ≤ 2)
    × ((after_acquire both).limiter.free_slots + (after_acquire both).running ≡ 1)
    × ((after_acquire both).running ≤ 1)
run_quota_example = run_quota 2 1 2 limiter made (after_acquire both) both-Steps
