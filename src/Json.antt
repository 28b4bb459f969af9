-- ===== src/Json.antt =====
-- The values that `json.loads` returns, and Python's operations on them that the program uses.
-- A float is held in millionths. A dict holds each key once.
use gpthands.Prelude.{
  ℕ, ◌*◌, String, Bool, true, false, Option, none, some, if◌then◌else◌, ◌==◌, ◌=?◌, ◌≡◌, arith,
}

-- `negsuc n` is -(n + 1).
pub data ℤ : Type 0 where
  pos : ℕ → ℤ
  negsuc : ℕ → ℤ

mutual
  pub data Json : Type 0 where
    null : Json
    bool : Bool → Json
    int : ℤ → Json
    real : ℤ → Json
    text : String → Json
    arr : Items → Json
    obj : Fields → Json

  pub data Items : Type 0 where
    nil : Items
    cons : Json → Items → Items

  pub data Fields : Type 0 where
    end : Fields
    field : String → Json → Fields → Fields

-- d.get(key)
unfoldable pub get : String → Fields → Option Json
get key end = none
get key (field k v rest) = if k =? key then some v else get key rest

-- d.pop(key, None)
unfoldable pub pop : String → Fields → Fields
pop key end = end
pop key (field k v rest) = if k =? key then rest else field k v (pop key rest)

-- d[key] = value
unfoldable pub put : String → Json → Fields → Fields
put key value end = field key value end
put key value (field k v rest) =
    if k =? key then field k value rest else field k v (put key value rest)

-- d.get(key) on a value that may be missing or no dict.
unfoldable pub get_in : String → Json → Option Json
unfolding get
get_in key (obj fields) = get key fields
get_in key _ = none

-- isinstance(value, dict)
unfoldable pub as_fields : Option Json → Option Fields
as_fields (some (obj fields)) = some fields
as_fields _ = none

abbrev pub int_is : ℤ → ℕ → Bool
int_is (pos n) k = n == k
int_is (negsuc n) k = false

-- value == k, where True is 1 and 1.0 is 1
unfoldable pub equals_int : Option Json → ℕ → Bool
equals_int (some (int z)) k = int_is z k
equals_int (some (bool true)) k = k == 1
equals_int (some (bool false)) k = k == 0
equals_int (some (real z)) k = int_is z (k * 1000000)
equals_int _ k = false

-- value == text
unfoldable pub equals_text : Option Json → String → Bool
equals_text (some (text t)) s = t =? s
equals_text _ s = false

pub get-put :
    (key : String) (value : Json) (fields : Fields) → get key (put key value fields) ≡ some value
unfolding get put
get-put key value end = ground arith
get-put key value (field k v rest) = ground (arith, get-put key value rest)

pub pop-put :
    (key : String) (value : Json) (fields : Fields)
    → get key fields ≡ none
    → pop key (put key value fields) ≡ fields
unfolding get put pop
pop-put key value end h = ground arith
pop-put key value (field k v rest) h = ground (arith, pop-put key value rest)

pub get-put_ne :
    (key other : String) (value : Json) (fields : Fields)
    → (key ≡ other → ⊥)
    → get other (put key value fields) ≡ get other fields
unfolding get put
get-put_ne key other value end h = ground arith
get-put_ne key other value (field k v rest) h = ground (arith, get-put_ne key other value rest)

pub pop_absent : (key : String) (fields : Fields) → get key fields ≡ none → pop key fields ≡ fields
unfolding get pop
pop_absent key end h = ground arith
pop_absent key (field k v rest) h = ground (arith, pop_absent key rest)

pub put-put :
    (key : String) (v w : Json) (fields : Fields) → put key v (put key w fields) ≡ put key v fields
unfolding put
put-put key v w end = ground arith
put-put key v w (field k x rest) = ground (arith, put-put key v w rest)
