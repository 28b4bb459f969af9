-- ===== src/Pending/Defs.antt =====
-- `PendingApprovalStore` of src/gpthands/pending_approvals.py, over the state files. A workspace is a
-- resolved path, given with the digest that names it.
use gpthands.Prelude.{
  ℕ, ◌+◌, String, ◌<>◌, Bool, true, false, not, ◌&&◌, ◌||◌, Option, none, some, List, [], ◌∷◌, ◌==◌,
  leb, ltb, if◌then◌else◌, all_chars, count, pending_error, ok, err, raise, ◌>>=◌, ◌>>◌,
}
use gpthands.Prelude.Errors.{Result, require}
use gpthands.Json.{
  ℤ, pos, negsuc, Json, int, text, obj, Fields, end, field, get, pop, put, as_fields, equals_int,
  equals_text,
}
use gpthands.State.{StateFile, is_none, no_fields, read_json_object, secure_write_json}
use gpthands.Audit.Defs.{Runtime}
use gpthands.Approval.Tokens.{int_or_zero}
use gpthands.Trust.Defs.{is_value}

pub record Place : Type 0 where
  pub path : String
  pub id : String

abbrev pub empty_queue : Fields
empty_queue = field "version" (int (pos 1)) (field "requests" (obj end) end)

-- PendingApprovalStore._load
unfoldable pub load_queue : StateFile → Result Fields
load_queue f = do
  stored ← read_json_object f
  require
      (no_fields stored
        || (equals_int (get "version" stored) 1
            && not (is_none (as_fields (get "requests" stored)))))
      pending_error "pending approval store format is invalid"
  ok (if no_fields stored then empty_queue else stored)

-- data["requests"]
unfoldable pub requests_of : Fields → Fields
requests_of stored = elim (as_fields (get "requests" stored)) [ none ↦ end | some d ↦ d ]

unfoldable pub with_requests : Fields → Fields → Json
with_requests requests stored = obj (put "requests" (obj requests) stored)

unfoldable pub is_hash_digit : ℕ → Bool
is_hash_digit c = (leb b'0' c && leb c b'9') || (leb b'a' c && leb c b'f')

-- PendingApprovalStore._key
unfoldable pub pending_key : Place → String → Result String
pending_key place action_hash = do
  require ((count action_hash == 64) && all_chars is_hash_digit action_hash) pending_error
      "action hash is invalid"
  ok (place.id <> (":" <> action_hash))

-- The store's file once the lock is taken: its data, or the exception.
unfoldable pub open_queue : Bool → Place → String → StateFile → Result (String × Fields)
open_queue locked place action_hash f = do
  key ← pending_key place action_hash
  require locked pending_error "timed out acquiring lock"
  stored ← load_queue f
  ok (key, stored)

-- max_age seconds before `now`, at the latest
unfoldable pub older_than : ℕ → ℕ → ℤ → Bool
older_than max_age now (pos seen) = ltb (seen + max_age) now
older_than max_age now (negsuc seen) = ltb max_age (now + seen + 1)

-- row.get("created_at") of two rows, with `reverse=True`: whether the first may stand first
unfoldable pub newer : ℤ → ℤ → Bool
newer (pos a) (pos b) = leb b a
newer (pos a) (negsuc b) = true
newer (negsuc a) (pos b) = false
newer (negsuc a) (negsuc b) = leb a b

unfoldable pub pending_record : Place → String → String → ℤ → ℕ → Fields
pending_record place risk action_hash created now = field "workspace" (text place.path) (
    field "workspace_id" (text place.id) (
      field "risk" (text risk) (
        field "action_hash" (text action_hash)
          (field "created_at" (int created) (field "last_seen_at" (int (pos now)) end)))))

unfoldable pub store_record :
    Bool → StateFile → String → Fields → Fields → Result Fields × StateFile
store_record writes f key stored added =
    let written =
      secure_write_json writes (with_requests (put key (obj added) (requests_of stored)) stored)
        f in
    (written.0 >> ok added, written.1)

-- PendingApprovalStore.remove
unfoldable pub remove : Bool → Bool → Place → String → StateFile → Result Bool × StateFile
remove locked writes place action_hash f = elim (open_queue locked place action_hash f) [
  | err e ↦ (err e, f)
  | ok (key, stored) ↦
      let written =
        secure_write_json writes (with_requests (pop key (requests_of stored)) stored) f in
      if is_value (get key (requests_of stored))
      then (written.0 >> ok true, written.1)
      else (ok false, f)
]

unfoldable pub is_of : Place → Fields → Bool
is_of place row =
    equals_text (get "workspace_id" row) place.id && equals_text (get "workspace" row) place.path

-- What the loop over the requests leaves: the requests that stay, the rows of the workspace, and
-- whether any was dropped.
pub record Sweep : Type 0 where
  pub kept : Fields
  pub rows : List Fields
  pub changed : Bool

abbrev pub kept_row : Place → String → Json → Fields → Sweep → Sweep
kept_row place k v row rest = record {
  kept = field k v rest.kept;
  rows = if is_of place row then row ∷ rest.rows else rest.rows;
  changed = rest.changed;
}

abbrev pub swept : Place → Bool → String → Json → Option Fields → Sweep → Sweep
swept place true k v row rest = record rest { changed = true }
swept place false k v none rest = rest
swept place false k v (some row) rest = kept_row place k v row rest

-- sorted(rows, key=..., reverse=True), each row with its key
unfoldable pub insert_row : ℤ × Fields → List (ℤ × Fields) → List (ℤ × Fields)
insert_row row [] = row ∷ []
insert_row row (next ∷ rows) =
    if newer row.0 next.0 then row ∷ next ∷ rows else next ∷ insert_row row rows

module _ (rt : Runtime) where
  unfoldable pub created_at : ℕ → Option Fields → Result ℤ
  created_at now none = ok (pos now)
  created_at now (some existing) = elim (get "created_at" existing) [
    | none ↦ ok (pos now)
    | some v ↦ int_or_zero rt (some v)
  ]

  unfoldable pub new_record : Place → String → String → ℕ → String → Fields → Result Fields
  new_record place risk action_hash now key stored = do
    created ← created_at now (as_fields (get key (requests_of stored)))
    ok (pending_record place risk action_hash created now)

  -- PendingApprovalStore.add
  unfoldable pub add :
      Bool → Bool → Place → String → String → ℕ → StateFile → Result Fields × StateFile
  add locked writes place risk action_hash now f = elim (open_queue locked place action_hash f) [
    | err e ↦ (err e, f)
    | ok (key, stored) ↦ elim (new_record place risk action_hash now key stored) [
      | err e ↦ (err e, f)
      | ok added ↦ store_record writes f key stored added
    ]
  ]

  -- not isinstance(value, dict) or int(value.get("last_seen_at", 0)) < cutoff
  unfoldable pub is_stale : ℕ → ℕ → Option Fields → Result Bool
  is_stale max_age now none = ok true
  is_stale max_age now (some row) = do
    seen ← int_or_zero rt (get "last_seen_at" row)
    ok (older_than max_age now seen)

  unfoldable pub sweep : ℕ → ℕ → Place → Fields → Result Sweep
  sweep max_age now place end = ok (record { kept = end; rows = []; changed = false })
  sweep max_age now place (field k v rest) = do
    stale ← is_stale max_age now (as_fields (some v))
    swept_rest ← sweep max_age now place rest
    ok (swept place stale k v (as_fields (some v)) swept_rest)

  unfoldable pub sorted_rows : List Fields → Result (List (ℤ × Fields))
  sorted_rows [] = ok []
  sorted_rows (row ∷ rows) = do
    key ← int_or_zero rt (get "created_at" row)
    rest ← sorted_rows rows
    ok (insert_row (key, row) rest)

  unfoldable pub list_swept :
      Bool → Fields → StateFile → Sweep → Result (List (ℤ × Fields)) × StateFile
  list_swept writes stored f s =
      let written = secure_write_json writes (with_requests s.kept stored) f in
      if s.changed then (written.0 >> sorted_rows s.rows, written.1) else (sorted_rows s.rows, f)

  -- PendingApprovalStore.list_for_workspace
  unfoldable pub list_for_workspace :
      Bool → Bool → Place → ℕ → ℕ → StateFile → Result (List (ℤ × Fields)) × StateFile
  list_for_workspace locked writes place max_age now f =
      if not locked
      then (raise pending_error "timed out acquiring lock", f)
      else elim (load_queue f) [
        | err e ↦ (err e, f)
        | ok stored ↦ elim (sweep max_age now place (requests_of stored)) [
          | err e ↦ (err e, f)
          | ok s ↦ list_swept writes stored f s
        ]
      ]
