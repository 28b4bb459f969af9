-- ===== src/Locking/Acquired.antt =====
-- `acquire` of src/gpthands/locking.py ends.
use mathlib.Core.Path.{subst}
use gpthands.Prelude.{
  ℕ, zero, suc, ◌+◌, ◌*◌, ◌≤◌, ◌<◌, Bool, true, false, Option, some, ◌≡◌, ◌⊎◌, inl, inr, refl, sym,
  arith, leb, leb→le, Bool-cases, lock_error, ok, raise,
}
use gpthands.Prelude.Errors.{Result}
use gpthands.Locking.Defs.{FileLock, hold, attempts, acquire}

module _ (taken : ℕ → Bool) (clock : ℕ → ℕ) (lock : FileLock) (deadline : ℕ) where
  -- The lock was taken at the first attempt that flock let through, and each attempt before it had
  -- failed ahead of the deadline.
  pub record IsTaken (from : ℕ) (result : Option (Result FileLock)) : Type 0 where
    pub attempt : ℕ
    pub won : taken attempt ≡ true
    pub refused : (j : ℕ) → from ≤ j → j < attempt → taken j ≡ false
    pub ahead : (j : ℕ) → from ≤ j → j < attempt → clock (suc j) < deadline
    pub returned : result ≡ some (ok (hold lock))

  -- The call raised after the first attempt that had failed at the deadline or past it, with no attempt let through.
  pub record IsLate (from : ℕ) (result : Option (Result FileLock)) : Type 0 where
    pub attempt : ℕ
    pub late : deadline ≤ clock (suc attempt)
    pub refused : (j : ℕ) → from ≤ j → j ≤ attempt → taken j ≡ false
    pub ahead : (j : ℕ) → from ≤ j → j < attempt → clock (suc j) < deadline
    pub raised : result ≡ some (raise lock_error "timed out acquiring lock")

  attempts-retry :
      (fuel k : ℕ)
      → taken k ≡ false
      → leb deadline (clock (suc k)) ≡ false
      → attempts taken clock lock (suc fuel) deadline k
        ≡ attempts taken clock lock fuel deadline (suc k)
  unfolding attempts
  attempts-retry fuel k lost early = rw (lost, early) refl

  -- What holds at k and from its successor on holds from k on.
  at_or_after : (P : ℕ → Type 0) (k j : ℕ) → P k → (suc k ≤ j → P j) → k ≤ j → P j
  at_or_after P k j here later le = elim (Bool-cases (leb (suc k) j)) [
    | inl past ↦ later (leb→le _ _ past)
    | inr still ↦ let same : k ≡ j = ground (arith, still, le) in subst P same here
  ]

  -- What is known of the attempts after k, where attempt k has failed ahead of the deadline.
  after_failure :
      (k : ℕ) (result : Option (Result FileLock))
      → taken k ≡ false
      → clock (suc k) < deadline
      → IsTaken (suc k) result ⊎ IsLate (suc k) result
      → IsTaken k result ⊎ IsLate k result
  after_failure k result lost early (inl later) = inl (record {
    attempt = later.attempt;
    won = later.won;
    refused = λ j le lt.
        at_or_after (λ x. x < later.attempt → taken x ≡ false) k j (λ _. lost) (later.refused j) le
          lt;
    ahead = λ j le lt.
        at_or_after (λ x. x < later.attempt → clock (suc x) < deadline) k j (λ _. early)
          (later.ahead j) le lt;
    returned = later.returned;
  })
  after_failure k result lost early (inr later) = inr (record {
    attempt = later.attempt;
    late = later.late;
    refused = λ j le lt.
        at_or_after (λ x. x ≤ later.attempt → taken x ≡ false) k j (λ _. lost) (later.refused j) le
          lt;
    ahead = λ j le lt.
        at_or_after (λ x. x < later.attempt → clock (suc x) < deadline) k j (λ _. early)
          (later.ahead j) le lt;
    raised = later.raised;
  })

  attempts-IsTaken :
      (fuel k : ℕ) → taken k ≡ true → IsTaken k (attempts taken clock lock (suc fuel) deadline k)
  unfolding attempts
  attempts-IsTaken fuel k won = record {
    attempt = k;
    won = won;
    refused = λ j le lt. absurd (omega (arith, le, lt));
    ahead = λ j le lt. absurd (omega (arith, le, lt));
    returned = rw won refl;
  }

  attempts-IsLate :
      (fuel k : ℕ)
      → taken k ≡ false
      → leb deadline (clock (suc k)) ≡ true
      → IsLate k (attempts taken clock lock (suc fuel) deadline k)
  unfolding attempts
  attempts-IsLate fuel k lost over = record {
    attempt = k;
    late = leb→le _ _ over;
    refused = λ j le lt. subst (λ x. taken x ≡ false) (omega (arith, le, lt)) lost;
    ahead = λ j le lt. absurd (omega (arith, le, lt));
    raised = rw (lost, over) refl;
  }

  module _ (slept : (k : ℕ) → clock (suc k) + 10000 ≤ clock (suc (suc k))) where
    attempts-ends :
        (fuel k : ℕ)
        → deadline ≤ clock (suc k) + 10000 * fuel
        → IsTaken k (attempts taken clock lock (suc fuel) deadline k)
          ⊎ IsLate k (attempts taken clock lock (suc fuel) deadline k)
    attempts-ends zero k enough = elim (Bool-cases (taken k)) [
      | inl won ↦ inl (attempts-IsTaken 0 k won)
      | inr lost ↦ inr (attempts-IsLate 0 k lost (ground (arith, enough)))
    ]
    attempts-ends (suc fuel) k enough = elim (Bool-cases (taken k)) [
      | inl won ↦ inl (attempts-IsTaken (suc fuel) k won)
      | inr lost ↦ elim (Bool-cases (leb deadline (clock (suc k)))) [
        | inl over ↦ inr (attempts-IsLate (suc fuel) k lost over)
        | inr early ↦
            subst (λ r. IsTaken k r ⊎ IsLate k r) (sym (attempts-retry (suc fuel) k lost early))
              (after_failure k _ lost (ground (arith, early))
                (attempts-ends fuel (suc k) (omega (arith, enough, slept k))))
      ]
    ]

module _ (taken : ℕ → Bool) (clock : ℕ → ℕ) (lock : FileLock) where
  -- Where the clock does not go back before the first failure, and each sleep of the loop lasts its
  -- 10,000 microseconds or longer, acquire ends within one attempt more than the timeout has such
  -- sleeps: it has taken the lock at the first attempt that flock let through, no earlier attempt
  -- having failed at the deadline or past it, or it has raised after the first attempt that did.
  pub acquire-ends :
      (sleeps : ℕ)
      → clock 0 ≤ clock 1
      → ((k : ℕ) → clock (suc k) + 10000 ≤ clock (suc (suc k)))
      → lock.timeout ≤ 10000 * sleeps
      → IsTaken taken clock lock (clock 0 + lock.timeout) 0 (acquire taken clock lock (suc sleeps))
        ⊎ IsLate taken clock lock (clock 0 + lock.timeout) 0 (acquire taken clock lock (suc sleeps))
  unfolding acquire
  acquire-ends sleeps forward slept enough =
      attempts-ends taken clock lock (clock 0 + lock.timeout) slept sleeps 0
        (omega (arith, forward, enough))
