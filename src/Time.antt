-- ===== src/Time.antt =====
-- Times and durations in millionths of a second, as whole numbers with a sign.
use gpthands.Prelude.{ℕ, ◌+◌, ◌-◌, ◌*◌, Bool, true, false, ◌≡◌, arith, ltb, if◌then◌else◌}
use gpthands.Json.{ℤ, pos, negsuc}

-- a < b
unfoldable pub before : ℤ → ℤ → Bool
before (pos a) (pos b) = ltb a b
before (pos a) (negsuc b) = false
before (negsuc a) (pos b) = true
before (negsuc a) (negsuc b) = ltb b a

-- t + n, for a duration n
unfoldable pub later_by : ℤ → ℕ → ℤ
later_by (pos a) n = pos (a + n)
later_by (negsuc a) n = if ltb a n then pos (n - (a + 1)) else negsuc (a - n)

-- A whole number of seconds.
unfoldable pub seconds : ℤ → ℤ
seconds (pos n) = pos (n * 1000000)
seconds (negsuc n) = negsuc (n * 1000000 + 999999)

-- If x is not before y and y is not before z, then x is not before z.
pub before_trans_not : (x y z : ℤ) → before x y ≡ false → before y z ≡ false → before x z ≡ false
unfolding before
before_trans_not (pos x) (pos y) (pos z) h k = ground arith
before_trans_not (pos x) (pos y) (negsuc z) h k = ground arith
before_trans_not (pos x) (negsuc y) (pos z) h k = ground arith
before_trans_not (pos x) (negsuc y) (negsuc z) h k = ground arith
before_trans_not (negsuc x) (pos y) (pos z) h k = ground arith
before_trans_not (negsuc x) (pos y) (negsuc z) h k = ground arith
before_trans_not (negsuc x) (negsuc y) (pos z) h k = ground arith
before_trans_not (negsuc x) (negsuc y) (negsuc z) h k = ground arith
