-- ===== src/Limits/Run.antt =====
-- The runs of the limiter of src/gpthands/limits.py: calls of `action` from any number of threads, in
-- any interleaving.
use gpthands.Prelude.{
  ℕ, ◌+◌, ◌-◌, ◌≤◌, Bool, true, false, List, [], ◌∷◌, ◌++◌, ◌≡◌, sym, ap, ◌∙◌, arith, leb,
  if◌then◌else◌, length, length-append, Bool-cases, inl, inr, ok, err,
}
use mathlib.Core.Path.{subst}
use gpthands.Prelude.Errors.{Result}
use gpthands.Limits.Defs.{ActionLimiter, drop_old, reserve_rate, acquire_slot, release_slot}
use gpthands.Limits.Window.{recent, recent-drop_old, length-drop_old, recent-append}

-- The limiter, the readings of the clock with which calls are about to take the lock of `_reserve_rate`,
-- how many calls wait for a slot and how many run, the readings of the calls that `_reserve_rate` has let
-- through, the last one first, the last reading of the clock, and the latest one used under the lock.
pub record State : Type 0 where
  pub limiter : ActionLimiter
  pub readings : List ℕ
  pub waiting : ℕ
  pub running : ℕ
  pub history : List ℕ
  pub clock : ℕ
  pub latest : ℕ

abbrev succeeded : Result (Unit {0}) → Bool
succeeded (ok done) = true
succeeded (err e) = false

unfoldable pub later_of : ℕ → ℕ → ℕ
later_of a b = if leb a b then b else a

-- `now = time.monotonic()`, before the lock
unfoldable pub after_read : ℕ → State → State
after_read now s = record s { readings = now ∷ s.readings; clock = now }

-- The block under the lock, of a call with the reading `now`; the others keep theirs.
unfoldable pub after_reserve : ℕ → List ℕ → State → State
after_reserve now others s =
    let answer = reserve_rate now s.limiter in
    record s {
      limiter = answer.1;
      readings = others;
      waiting = if succeeded answer.0 then s.waiting + 1 else s.waiting;
      history = if succeeded answer.0 then now ∷ s.history else s.history;
      latest = later_of s.latest now;
    }

unfoldable pub after_acquire : State → State
after_acquire s =
    let answer = acquire_slot s.limiter in
    record s {
      limiter = answer.1;
      waiting = s.waiting - 1;
      running = if succeeded answer.0 then s.running + 1 else s.running;
    }

unfoldable pub after_release : State → State
after_release s = record s { limiter = release_slot s.limiter; running = s.running - 1 }

-- One step of one thread. The clock does not go back, but a thread may be held up between its reading of
-- the clock and the lock, so that the readings reach the lock in any order.
pub data Step : State → State → Type 0 where
  read : (now : ℕ) (s : State) → s.clock ≤ now → Step s (after_read now s)
  reserve :
      (now : ℕ) (before after : List ℕ) (s : State)
      → s.readings ≡ before ++ now ∷ after
      → Step s (after_reserve now (before ++ after) s)
  acquire : (s : State) → 1 ≤ s.waiting → Step s (after_acquire s)
  release : (s : State) → 1 ≤ s.running → Step s (after_release s)

pub data Steps : State → State → Type 0 where
  done : (s : State) → Steps s s
  more : (s t u : State) → Steps s t → Step t u → Steps s u

abbrev pub started : ActionLimiter → State
started l = record {
  limiter = l;
  readings = [];
  waiting = 0;
  running = 0;
  history = [];
  clock = 0;
  latest = 0;
}

pub record IsLimited (limit slots : ℕ) (s : State) : Type 0 where
  pub limit_kept : s.limiter.requests_per_minute ≡ limit
  pub slots_kept : s.limiter.free_slots + s.running ≡ slots
  pub few : length s.limiter.times ≤ limit
  pub same_window :
      (now : ℕ)
      → s.latest ≤ now
      → length (recent now s.history) ≡ length (recent now s.limiter.times)

acquire_slot-times : (l : ActionLimiter) → (acquire_slot l).1.times ≡ l.times
unfolding acquire_slot
acquire_slot-times l = ground arith

-- What a call leaves that `_reserve_rate` refuses, and one that it lets through.
abbrev refused : ℕ → List ℕ → State → State
refused now others s = record s {
  limiter = record s.limiter { times = drop_old now s.limiter.times };
  readings = others;
  latest = later_of s.latest now;
}

abbrev admitted : ℕ → List ℕ → State → State
admitted now others s = record s {
  limiter = record s.limiter { times = drop_old now s.limiter.times ++ now ∷ [] };
  readings = others;
  waiting = s.waiting + 1;
  history = now ∷ s.history;
  latest = later_of s.latest now;
}

reserve-refused :
    (now : ℕ) (others : List ℕ) (s : State)
    → leb s.limiter.requests_per_minute (length (drop_old now s.limiter.times)) ≡ true
    → after_reserve now others s ≡ refused now others s
unfolding after_reserve reserve_rate
reserve-refused now others s full = ground arith

reserve-admitted :
    (now : ℕ) (others : List ℕ) (s : State)
    → leb s.limiter.requests_per_minute (length (drop_old now s.limiter.times)) ≡ false
    → after_reserve now others s ≡ admitted now others s
unfolding after_reserve reserve_rate
reserve-admitted now others s room = ground arith

recent-cons :
    (n t : ℕ) (ts : List ℕ)
    → length (recent n (t ∷ ts)) ≡ length (recent n (t ∷ [])) + length (recent n ts)
unfolding recent
recent-cons n t ts = ground arith

later_of-bounds : (a b n : ℕ) → later_of a b ≤ n → (a ≤ n) × (b ≤ n)
unfolding later_of
later_of-bounds a b n h = ground arith

module _ (limit slots : ℕ) where
  acquire-IsLimited :
      (s : State) → IsLimited limit slots s → IsLimited limit slots (after_acquire s)
  unfolding after_acquire
  acquire-IsLimited s h = record {
    limit_kept = unfold acquire_slot in (ground (arith, h.limit_kept));
    slots_kept = unfold acquire_slot in (ground (arith, h.slots_kept));
    few = rw (acquire_slot-times s.limiter) h.few;
    same_window = rw (acquire_slot-times s.limiter) h.same_window;
  }

  release-IsLimited :
      (s : State)
      → 1 ≤ s.running
      → IsLimited limit slots s
      → IsLimited limit slots (after_release s)
  unfolding after_release release_slot
  release-IsLimited s some_run h = record {
    limit_kept = h.limit_kept;
    slots_kept = omega (arith, h.slots_kept);
    few = h.few;
    same_window = h.same_window;
  }

  read-IsLimited :
      (now : ℕ) (s : State) → IsLimited limit slots s → IsLimited limit slots (after_read now s)
  unfolding after_read
  read-IsLimited now s h = record {
    limit_kept = h.limit_kept;
    slots_kept = h.slots_kept;
    few = h.few;
    same_window = h.same_window;
  }

  -- The window after old times are dropped.
  module _ (now : ℕ) (others : List ℕ) (s : State) (h : IsLimited limit slots s) where
    dropped-window :
        (n : ℕ)
        → later_of s.latest now ≤ n
        → length (recent n s.history) ≡ length (recent n (drop_old now s.limiter.times))
    dropped-window n after =
        let (old, new) = later_of-bounds s.latest now n after in
        h.same_window n old ∙ ap length (sym (recent-drop_old now n s.limiter.times new))

    refused-IsLimited : IsLimited limit slots (refused now others s)
    refused-IsLimited = record {
      limit_kept = h.limit_kept;
      slots_kept = h.slots_kept;
      few = omega (arith, length-drop_old now s.limiter.times, h.few);
      same_window = dropped-window;
    }

    admitted-window :
        (n : ℕ)
        → later_of s.latest now ≤ n
        → length (recent n (now ∷ s.history))
          ≡ length (recent n (drop_old now s.limiter.times ++ now ∷ []))
    admitted-window n after =
        recent-cons n now s.history
        ∙ ap (λ k. length (recent n (now ∷ [])) + k) (dropped-window n after)
        ∙ sym (
            ap length (recent-append n now _)
            ∙ length-append (recent n _) (recent n (now ∷ []))
            ∙ omega arith)

    admitted-IsLimited :
        leb s.limiter.requests_per_minute (length (drop_old now s.limiter.times)) ≡ false
        → IsLimited limit slots (admitted now others s)
    admitted-IsLimited room = record {
      limit_kept = h.limit_kept;
      slots_kept = h.slots_kept;
      few = ground (arith, length-append (drop_old now s.limiter.times) (now ∷ []), h.limit_kept);
      same_window = admitted-window;
    }

  reserve-IsLimited :
      (now : ℕ) (others : List ℕ) (s : State)
      → IsLimited limit slots s
      → IsLimited limit slots (after_reserve now others s)
  reserve-IsLimited now others s h =
      elim (Bool-cases
        (leb s.limiter.requests_per_minute (length (drop_old now s.limiter.times)))) [
          | inl full ↦
              subst (IsLimited limit slots) (sym (reserve-refused now others s full))
                (refused-IsLimited now others s h)
          | inr room ↦
              subst (IsLimited limit slots) (sym (reserve-admitted now others s room))
                (admitted-IsLimited now others s h room)
        ]

  step-IsLimited : (s t : State) → Step s t → IsLimited limit slots s → IsLimited limit slots t
  step-IsLimited _ _ (read now s later) h = read-IsLimited now s h
  step-IsLimited _ _ (reserve now before after s held) h =
      reserve-IsLimited now (before ++ after) s h
  step-IsLimited _ _ (acquire s some_wait) h = acquire-IsLimited s h
  step-IsLimited _ _ (release s some_run) h = release-IsLimited s some_run h

  -- Every step of every run keeps the limiter's invariant.
  pub Steps-IsLimited :
      (s t : State) → Steps s t → IsLimited limit slots s → IsLimited limit slots t
  Steps-IsLimited _ _ (done s) h = h
  Steps-IsLimited _ _ (more s t u first last) h =
      step-IsLimited t u last (Steps-IsLimited s t first h)
