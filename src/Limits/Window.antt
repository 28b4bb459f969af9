-- ===== src/Limits/Window.antt =====
-- The sliding window of src/gpthands/limits.py, against the plain filter of recent times.
use gpthands.Prelude.{
  ℕ, ◌+◌, ◌≤◌, List, [], ◌∷◌, ◌++◌, ◌≡◌, refl, arith, ltb, if◌then◌else◌, length,
}
use gpthands.Limits.Defs.{minute, drop_old}

-- The times of the 60 seconds before `now`.
unfoldable pub recent : ℕ → List ℕ → List ℕ
recent now [] = []
recent now (t ∷ ts) = let rest = recent now ts in if ltb now (t + minute) then t ∷ rest else rest

-- What the window drops now is not recent later.
pub recent-drop_old :
    (now later : ℕ) (ts : List ℕ) → now ≤ later → recent later (drop_old now ts) ≡ recent later ts
unfolding recent drop_old
recent-drop_old now later [] h = refl
recent-drop_old now later (t ∷ ts) h = ground (arith, recent-drop_old now later ts h)

pub recent-append :
    (now t : ℕ) (ts : List ℕ) → recent now (ts ++ t ∷ []) ≡ recent now ts ++ recent now (t ∷ [])
unfolding recent
recent-append now t [] = ground arith
recent-append now t (u ∷ ts) = ground (arith, recent-append now t ts)

pub length-recent : (now : ℕ) (ts : List ℕ) → length (recent now ts) ≤ length ts
unfolding recent
length-recent now [] = omega arith
length-recent now (t ∷ ts) = ground (arith, length-recent now ts)

pub length-drop_old : (now : ℕ) (ts : List ℕ) → length (drop_old now ts) ≤ length ts
unfolding drop_old
length-drop_old now [] = omega arith
length-drop_old now (t ∷ ts) = ground (arith, length-drop_old now ts)
