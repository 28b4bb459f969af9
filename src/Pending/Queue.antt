-- ===== src/Pending/Queue.antt =====
-- What the queue of pending approvals shows.
use mathlib.Core.Path.{subst}
use gpthands.Prelude.{
  ℕ, String, Bool, true, false, Option, none, some, List, [], ◌∷◌, ◌≡◌, refl, arith, ok, All,
  Bool-cases, Result-cases, inl, inr,
}
use gpthands.Json.{ℤ, pos, negsuc, Json, Fields, end, field, get, as_fields, equals_text}
use gpthands.State.{StateFile}
use gpthands.Audit.Defs.{Runtime}
use gpthands.Approval.Tokens.{int_or_zero}
use gpthands.Pending.Defs.{
  Place, load_queue, requests_of, older_than, newer, is_stale, is_of, Sweep, swept, kept_row, sweep,
  insert_row, sorted_rows, list_swept, list_for_workspace,
}

newer_total : (a b : ℤ) → newer a b ≡ false → newer b a ≡ true
unfolding newer
newer_total (pos a) (pos b) h = ground arith
newer_total (pos a) (negsuc b) h = ground arith
newer_total (negsuc a) (pos b) h = refl
newer_total (negsuc a) (negsuc b) h = ground arith

newer_trans : (a b c : ℤ) → newer a b ≡ true → newer b c ≡ true → newer a c ≡ true
unfolding newer
newer_trans (pos a) (pos b) (pos c) h k = ground arith
newer_trans a b c h k = ground arith

abbrev pub IsNewestFirst : List (ℤ × Fields) → Type 0
IsNewestFirst [] = Unit
IsNewestFirst (row ∷ rows) = All (λ other. newer row.0 other.0 ≡ true) rows × IsNewestFirst rows

All-insert_row {κ} :
    (P : ℤ × Fields → Type κ) (row : ℤ × Fields) (rows : List (ℤ × Fields))
    → P row
    → All P rows
    → All P (insert_row row rows)
unfolding insert_row
All-insert_row P row [] p all = (p, tt)
All-insert_row P row (next ∷ rows) p (q, all) = elim (Bool-cases (newer row.0 next.0)) [
  | inl first ↦ rw first (p, (q, all))
  | inr later ↦ rw later (q, All-insert_row P row rows p all)
]

All-newer :
    (a b : ℤ) (rows : List (ℤ × Fields))
    → newer a b ≡ true
    → All (λ other. newer b other.0 ≡ true) rows
    → All (λ other. newer a other.0 ≡ true) rows
All-newer a b [] h all = tt
All-newer a b (row ∷ rows) h (p, all) = (newer_trans a b row.0 h p, All-newer a b rows h all)

insert_row-IsNewestFirst :
    (row : ℤ × Fields) (rows : List (ℤ × Fields))
    → IsNewestFirst rows
    → IsNewestFirst (insert_row row rows)
unfolding insert_row
insert_row-IsNewestFirst row [] s = (tt, tt)
insert_row-IsNewestFirst row (next ∷ rows) (all, s) = elim (Bool-cases (newer row.0 next.0)) [
  | inl first ↦ rw first ((first, All-newer row.0 next.0 rows first all), (all, s))
  | inr later ↦ rw later (
    All-insert_row _ row rows (newer_total row.0 next.0 later) all,
    insert_row-IsNewestFirst row rows s,
  )
]

module _ (rt : Runtime) (max_age now : ℕ) (place : Place) where
  -- The row is this workspace's, was seen within the age, and is listed with its creation time.
  pub record IsCurrent (row : ℤ × Fields) : Type 0 where
    pub own_id : equals_text (get "workspace_id" row.1) place.id ≡ true
    pub own_path : equals_text (get "workspace" row.1) place.path ≡ true
    pub seen : ℤ
    pub seen_at : int_or_zero rt (get "last_seen_at" row.1) ≡ ok seen
    pub fresh : older_than max_age now seen ≡ false
    pub created : int_or_zero rt (get "created_at" row.1) ≡ ok row.0

  -- What the sweep has tested of a row.
  record IsKept (row : Fields) : Type 0 where
    kept_of : is_of place row ≡ true
    kept_fresh : is_stale rt max_age now (some row) ≡ ok false

  kept_row-IsKept :
      (k : String) (v : Json) (row : Fields) (rest : Sweep)
      → is_stale rt max_age now (some row) ≡ ok false
      → All IsKept rest.rows
      → All IsKept (kept_row place k v row rest).rows
  kept_row-IsKept k v row rest fresh all = elim (Bool-cases (is_of place row)) [
    | inl own ↦ rw own (record { kept_of = own; kept_fresh = fresh }, all)
    | inr other ↦ rw other all
  ]

  swept-IsKept :
      (stale : Bool) (k : String) (v : Json) (row : Option Fields) (rest : Sweep)
      → is_stale rt max_age now row ≡ ok stale
      → All IsKept rest.rows
      → All IsKept (swept place stale k v row rest).rows
  swept-IsKept true k v row rest h all = all
  swept-IsKept false k v none rest h all = all
  swept-IsKept false k v (some row) rest h all = kept_row-IsKept k v row rest h all

  sweep-IsKept :
      (requests : Fields) (s : Sweep)
      → sweep rt max_age now place requests ≡ ok s
      → All IsKept s.rows
  unfolding sweep
  sweep-IsKept end s h =
      let none_there : ◌≡◌ {A = List Fields} [] s.rows = ground arith in
      subst (λ rows. All IsKept rows) none_there tt
  sweep-IsKept (field k v rest) s h =
      elim (Result-cases (is_stale rt max_age now (as_fields (some v)))) [
        | inl (e, b) ↦ absurd (ground arith)
        | inr (stale, b) ↦ elim (Result-cases (sweep rt max_age now place rest)) [
          | inl (e, r) ↦ absurd (ground arith)
          | inr (t, r) ↦
              let same : swept place stale k v (as_fields (some v)) t ≡ s = ground arith in
              subst (λ u. All IsKept u.rows) same
                (swept-IsKept stale k v (as_fields (some v)) t b (sweep-IsKept rest t r))
        ]
      ]

  IsKept-IsCurrent :
      (row : Fields) (key : ℤ)
      → IsKept row
      → int_or_zero rt (get "created_at" row) ≡ ok key
      → IsCurrent (key, row)
  unfolding is_stale is_of
  IsKept-IsCurrent row key kept created =
      elim (Result-cases (int_or_zero rt (get "last_seen_at" row))) [
        | inl (e, n) ↦ absurd (ground (arith, kept.kept_fresh))
        | inr (seen, n) ↦ record {
          own_id = ground (arith, kept.kept_of);
          own_path = ground (arith, kept.kept_of);
          seen = seen;
          seen_at = n;
          fresh = ground (arith, kept.kept_fresh);
          created = created;
        }
      ]

  sorted_rows-IsCurrent :
      (rows : List Fields) (sorted : List (ℤ × Fields))
      → sorted_rows rt rows ≡ ok sorted
      → All IsKept rows
      → All IsCurrent sorted × IsNewestFirst sorted
  unfolding sorted_rows
  sorted_rows-IsCurrent [] sorted h all =
      let same : [] ≡ sorted = ground arith in
      subst (λ u. All IsCurrent u × IsNewestFirst u) same (tt, tt)
  sorted_rows-IsCurrent (row ∷ rows) sorted h (kept, all) =
      elim (Result-cases (int_or_zero rt (get "created_at" row))) [
        | inl (e, c) ↦ absurd (ground arith)
        | inr (key, c) ↦ elim (Result-cases (sorted_rows rt rows)) [
          | inl (e, r) ↦ absurd (ground arith)
          | inr (rest, r) ↦
              let same : insert_row (key, row) rest ≡ sorted = ground arith in
              let (current, newest) = sorted_rows-IsCurrent rows rest r all in
              subst (λ u. All IsCurrent u × IsNewestFirst u) same
                (
                  All-insert_row IsCurrent (key, row) rest (IsKept-IsCurrent row key kept c)
                      current,
                  insert_row-IsNewestFirst (key, row) rest newest,
                )
        ]
      ]

  -- Every row that list_for_workspace returns is this workspace's, was seen no longer than the age
  -- before the call, and no row stands before one that was created later.
  pub list_for_workspace-IsCurrent :
      (locked writes : Bool) (f : StateFile) (rows : List (ℤ × Fields))
      → (list_for_workspace rt locked writes place max_age now f).0 ≡ ok rows
      → All IsCurrent rows × IsNewestFirst rows
  unfolding list_for_workspace list_swept
  list_for_workspace-IsCurrent locked writes f rows h = elim (Result-cases (load_queue f)) [
    | inl (e, l) ↦ absurd (ground arith)
    | inr (stored, l) ↦ elim (Result-cases (sweep rt max_age now place (requests_of stored))) [
      | inl (e, w) ↦ absurd (ground arith)
      | inr (s, w) ↦
          sorted_rows-IsCurrent s.rows rows (ground arith) (sweep-IsKept (requests_of stored) s w)
    ]
  ]
