-- ===== src/Pending/Added.antt =====
-- An action that was added is shown until it is too old.
use mathlib.Core.Path.{subst}
use gpthands.Prelude.{
  ℕ, String, Bool, true, false, Option, none, some, List, [], ◌∷◌, ◌≡◌, ◌⊎◌, refl, arith, ok,
  Bool-cases, Result-cases, inl, inr, string_discrete,
}
use gpthands.Json.{ℤ, Json, obj, Fields, end, field, get, as_fields}
use gpthands.State.{StateFile}
use gpthands.Audit.Defs.{Runtime}
use gpthands.Approval.Tokens.{int_or_zero}
use gpthands.Pending.Defs.{
  Place, load_queue, requests_of, newer, is_stale, is_of, Sweep, swept, sweep, insert_row,
  sorted_rows, list_swept, list_for_workspace,
}

abbrev pub Listed : Fields → List (ℤ × Fields) → Type 0
Listed x [] = ⊥
Listed x (row ∷ rows) = (row.1 ≡ x) ⊎ Listed x rows

abbrev Among : Fields → List Fields → Type 0
Among x [] = ⊥
Among x (row ∷ rows) = (row ≡ x) ⊎ Among x rows

or_else {ℓ κ ι} : {A : Type ℓ} {B : Type κ} {C : Type ι} → (B → C) → A ⊎ B → A ⊎ C
or_else f (inl a) = inl a
or_else f (inr b) = inr (f b)

Listed-insert_self :
    (x : Fields) (key : ℤ) (rows : List (ℤ × Fields)) → Listed x (insert_row (key, x) rows)
unfolding insert_row
Listed-insert_self x key [] = inl refl
Listed-insert_self x key (next ∷ rows) = elim (Bool-cases (newer key next.0)) [
  | inl first ↦ rw first (inl refl)
  | inr later ↦ rw later (inr (Listed-insert_self x key rows))
]

Listed-insert_other :
    (x : Fields) (row : ℤ × Fields) (rows : List (ℤ × Fields))
    → Listed x rows
    → Listed x (insert_row row rows)
unfolding insert_row
Listed-insert_other x row [] h = absurd h
Listed-insert_other x row (next ∷ rows) h = elim (Bool-cases (newer row.0 next.0)) [
  | inl first ↦ rw first (inr h)
  | inr later ↦ rw later (or_else (Listed-insert_other x row rows) h)
]

-- A request that stands under some key, fresh and of this workspace, is among the rows of a sweep.
module _ (rt : Runtime) (max_age now : ℕ) (place : Place) (row : Fields)
    (fresh : is_stale rt max_age now (some row) ≡ ok false) (own : is_of place row ≡ true) where
  swept-Among_self :
      (k : String) (v : Json) (rest : Sweep)
      → Among row (swept place false k v (some row) rest).rows
  swept-Among_self k v rest = rw own (inl refl)

  swept-Among :
      (stale : Bool) (k : String) (v : Json) (other : Option Fields) (rest : Sweep)
      → Among row rest.rows
      → Among row (swept place stale k v other rest).rows
  swept-Among true k v other rest h = h
  swept-Among false k v none rest h = h
  swept-Among false k v (some d) rest h = elim (Bool-cases (is_of place d)) [
    | inl e ↦ rw e (inr h)
    | inr e ↦ rw e h
  ]

  sweep-Among :
      (key : String) (requests : Fields) (s : Sweep)
      → get key requests ≡ some (obj row)
      → sweep rt max_age now place requests ≡ ok s
      → Among row s.rows
  unfolding sweep get
  sweep-Among key end s there h = absurd (ground arith)
  sweep-Among key (field k v rest) s there h =
      elim (Result-cases (is_stale rt max_age now (as_fields (some v)))) [
        | inl (e, b) ↦ absurd (ground arith)
        | inr (stale, b) ↦ elim (Result-cases (sweep rt max_age now place rest)) [
          | inl (e, r) ↦ absurd (ground arith)
          | inr (t, r) ↦ elim (string_discrete k key) [
            | no differ ↦
                let same : swept place stale k v (as_fields (some v)) t ≡ s = ground arith in
                subst (λ u. Among row u.rows) same
                  (swept-Among stale k v (as_fields (some v)) t
                    (sweep-Among key rest t (ground arith) r))
            | yes e ↦
                let value : v ≡ obj row = ground arith in
                let mine : stale ≡ false = unfold as_fields in (ground (arith, fresh, value)) in
                let same : swept place false k v (some row) t ≡ s =
                  unfold as_fields in (ground arith) in
                subst (λ u. Among row u.rows) same (swept-Among_self k v t)
          ]
        ]
      ]

  sorted_rows-Listed :
      (rows : List Fields) (sorted : List (ℤ × Fields))
      → sorted_rows rt rows ≡ ok sorted
      → Among row rows
      → Listed row sorted
  unfolding sorted_rows
  sorted_rows-Listed [] sorted h among = absurd among
  sorted_rows-Listed (next ∷ rows) sorted h among =
      elim (Result-cases (int_or_zero rt (get "created_at" next))) [
        | inl (e, c) ↦ absurd (ground arith)
        | inr (key, c) ↦ elim (Result-cases (sorted_rows rt rows)) [
          | inl (e, r) ↦ absurd (ground arith)
          | inr (rest, r) ↦
              let same : insert_row (key, next) rest ≡ sorted = ground arith in
              subst (Listed row) same (elim among [
                | inl e ↦ rw e (Listed-insert_self row key rest)
                | inr deeper ↦
                    Listed-insert_other row (key, next) rest (sorted_rows-Listed rows rest r deeper)
              ])
        ]
      ]

  pub list_for_workspace-Listed :
      (locked writes : Bool) (f : StateFile) (stored : Fields) (key : String)
      (rows : List (ℤ × Fields))
      → load_queue f ≡ ok stored
      → get key (requests_of stored) ≡ some (obj row)
      → (list_for_workspace rt locked writes place max_age now f).0 ≡ ok rows
      → Listed row rows
  unfolding list_for_workspace list_swept
  list_for_workspace-Listed locked writes f stored key rows l there h =
      elim (Result-cases (sweep rt max_age now place (requests_of stored))) [
        | inl (e, w) ↦ absurd (ground arith)
        | inr (s, w) ↦
            sorted_rows-Listed s.rows rows (ground arith)
              (sweep-Among key (requests_of stored) s there w)
      ]
