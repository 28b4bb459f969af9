-- ===== src/Bootstrap/Lists.antt =====
-- The history and the digests of a manifest in src/scripts/release_bootstrap.py, once written and read.
use gpthands.Prelude.{
  ℕ, zero, suc, ◌-◌, ◌≤◌, String, some, List, [], ◌∷◌, ◌++◌, ◌≡◌, ◌≢◌, refl, ap, ◌∙◌, arith,
  Result-cases, inl, inr, ok, length, length-append,
}
use gpthands.Json.{Json, null, bool, int, real, text, arr, obj, Fields, end, field, put, get-put_ne}
use gpthands.Server.Read.{texts_of}
use gpthands.Bootstrap.Wheel.{normalize_sha256}
use gpthands.Bootstrap.Defs.{
  check_digests, insert_sorted, sort_keys, texts_in, drop, last_ten, pop_last, digest_of,
}

pub texts_in-texts_of : (ts : List String) → texts_in (texts_of ts) ≡ ts
unfolding texts_in texts_of
texts_in-texts_of [] = refl
texts_in-texts_of (t ∷ ts) = ap (λ x. t ∷ x) (texts_in-texts_of ts)

drop-append :
    (n : ℕ) (xs : List String) (x : String)
    → n ≤ length xs
    → drop n (xs ++ x ∷ []) ≡ drop n xs ++ x ∷ []
unfolding drop
drop-append zero xs x h = refl
drop-append (suc n) [] x h = absurd (omega (arith, h))
drop-append (suc n) (y ∷ xs) x h = drop-append n xs x (omega (arith, h))

pop_last-append : (xs : List String) (x : String) → pop_last (xs ++ x ∷ []) ≡ some (x, xs)
unfolding pop_last
pop_last-append [] x = refl
pop_last-append (y ∷ xs) x = rw (pop_last-append xs x) refl

-- What is appended to a history is what is taken from it again.
pub pop_last-last_ten :
    (xs : List String) (x : String)
    → pop_last (last_ten (xs ++ x ∷ [])) ≡ some (x, drop (length (xs ++ x ∷ []) - 10) xs)
unfolding last_ten
pop_last-last_ten xs x =
    ap pop_last
      (drop-append (length (xs ++ x ∷ []) - 10) xs x (omega (arith, length-append xs (x ∷ []))))
    ∙ pop_last-append (drop (length (xs ++ x ∷ []) - 10) xs) x

-- A recorded digest is a text that normalizes.
abbrev IsDigest : Json → Type 0
IsDigest v = check_digests (field "" v end) ≡ ok tt

check_digests-tail :
    (key : String) (v : Json) (rest : Fields)
    → check_digests (field key v rest) ≡ ok tt
    → IsDigest v × (check_digests rest ≡ ok tt)
unfolding check_digests
check_digests-tail key (text t) rest h = elim (Result-cases (normalize_sha256 t)) [
  | inl (e, bad) ↦ absurd (ground arith)
  | inr (d, good) ↦ (ground arith, ground arith)
]
check_digests-tail key null rest h = absurd (ground arith)
check_digests-tail key (bool b) rest h = absurd (ground arith)
check_digests-tail key (int z) rest h = absurd (ground arith)
check_digests-tail key (real z) rest h = absurd (ground arith)
check_digests-tail key (arr items) rest h = absurd (ground arith)
check_digests-tail key (obj fields) rest h = absurd (ground arith)

check_digests-field :
    (key : String) (v : Json) (rest : Fields)
    → IsDigest v
    → check_digests rest ≡ ok tt
    → check_digests (field key v rest) ≡ ok tt
unfolding check_digests
check_digests-field key (text t) rest h k = elim (Result-cases (normalize_sha256 t)) [
  | inl (e, bad) ↦ absurd (ground arith)
  | inr (d, good) ↦ ground arith
]
check_digests-field key null rest h k = absurd (ground arith)
check_digests-field key (bool b) rest h k = absurd (ground arith)
check_digests-field key (int z) rest h k = absurd (ground arith)
check_digests-field key (real z) rest h k = absurd (ground arith)
check_digests-field key (arr items) rest h k = absurd (ground arith)
check_digests-field key (obj fields) rest h k = absurd (ground arith)

check_digests-put :
    (key : String) (v : Json) (d : Fields)
    → IsDigest v
    → check_digests d ≡ ok tt
    → check_digests (put key v d) ≡ ok tt
unfolding put
check_digests-put key v end h k = check_digests-field key v end h k
check_digests-put key v (field j w rest) h k =
    let parts = check_digests-tail j w rest k in
    ground (
      arith,
      check_digests-field j v rest h parts.1,
      check_digests-field j w (put key v rest) parts.0 (check_digests-put key v rest h parts.1),
      check_digests-field key v rest h parts.1,
    )

check_digests-insert_sorted :
    (key : String) (v : Json) (d : Fields)
    → IsDigest v
    → check_digests d ≡ ok tt
    → check_digests (insert_sorted key v d) ≡ ok tt
unfolding insert_sorted
check_digests-insert_sorted key v end h k = check_digests-field key v end h k
check_digests-insert_sorted key v (field j w rest) h k =
    let parts = check_digests-tail j w rest k in
    ground (
      arith,
      check_digests-field key v (field j w rest) h k,
      check_digests-field j w (insert_sorted key v rest) parts.0
          (check_digests-insert_sorted key v rest h parts.1),
    )

check_digests-sort_keys :
    (d : Fields) → check_digests d ≡ ok tt → check_digests (sort_keys d) ≡ ok tt
unfolding sort_keys
check_digests-sort_keys end h = h
check_digests-sort_keys (field k v rest) h =
    let parts = check_digests-tail k v rest h in
    check_digests-insert_sorted k v (sort_keys rest) parts.0 (check_digests-sort_keys rest parts.1)

-- The digests that an install writes pass the checks by which the next command reads them.
pub check_digests-written :
    (version digest : String) (d : Fields)
    → normalize_sha256 digest ≡ ok digest
    → check_digests d ≡ ok tt
    → check_digests (sort_keys (put version (text digest) d)) ≡ ok tt
check_digests-written version digest d n h =
    check_digests-sort_keys (put version (text digest) d)
      (check_digests-put version (text digest) d (unfold check_digests in ground arith) h)

pub digest_of-put_ne :
    (version other : String) (v : Json) (d : Fields)
    → version ≢ other
    → digest_of other (put version v d) ≡ digest_of other d
unfolding digest_of
digest_of-put_ne version other v d ne = rw (get-put_ne version other v d ne, digest_of) refl
