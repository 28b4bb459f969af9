-- ===== src/Pending/Shown.antt =====
-- From `add` to `list_for_workspace`, through the file.
use package.text.Mathlib.TextEquality.{eq_iff}
use mathlib.Core.Path.{subst}
use gpthands.Prelude.{
  ℕ, ◌+◌, ◌≤◌, String, Bool, true, false, some, List, ◌≡◌, ◌≢◌, refl, ap, ◌∙◌, arith, ok,
  Bool-cases, Result-cases, inl, inr, =?_refl, string_discrete,
}
use gpthands.Json.{
  ℤ, obj, text, Fields, get, put, as_fields, equals_int, equals_text, get-put, get-put_ne,
}
use gpthands.State.{no_fields-put, StateFile, read_json_object, secure_write_json, no_fields}
use gpthands.Audit.Defs.{Runtime, to_int}
use gpthands.Approval.Tokens.{int_or_zero}
use gpthands.Pending.Defs.{
  Place, load_queue, requests_of, with_requests, older_than, is_stale, is_of, list_for_workspace,
  pending_record, new_record, store_record, open_queue, pending_key, created_at, add, empty_queue,
}
use gpthands.Pending.Added.{Listed, list_for_workspace-Listed}

empty_version : equals_int (get "version" empty_queue) 1 ≡ true
unfolding get equals_int string_discrete
empty_version = refl

load_queue-version :
    (f : StateFile) (stored : Fields)
    → load_queue f ≡ ok stored
    → equals_int (get "version" stored) 1 ≡ true
unfolding load_queue
load_queue-version f stored h = elim (Result-cases (read_json_object f)) [
  | inl (e, r) ↦ absurd (ground arith)
  | inr (found, r) ↦ elim (Bool-cases (no_fields found)) [
    | inl none_there ↦
        subst (λ d. equals_int (get "version" d) 1 ≡ true) (ground arith) empty_version
    | inr some_there ↦ ground arith
  ]
]

keys_differ : ◌≢◌ {A = String} "requests" "version"
keys_differ e = ground (arith, e, eq_iff "requests" "version")

abbrev written_file : Fields → Fields → StateFile
written_file requests stored = record {
  exists = true;
  symlink = false;
  is_file = true;
  content = some (with_requests requests stored);
}

load_queue-written :
    (requests stored : Fields)
    → equals_int (get "version" stored) 1 ≡ true
    → (load_queue (written_file requests stored) ≡ ok (put "requests" (obj requests) stored))
      × (requests_of (put "requests" (obj requests) stored) ≡ requests)
unfolding load_queue read_json_object requests_of as_fields with_requests
load_queue-written requests stored v =
    let there = get-put "requests" (obj requests) stored in
    let version = get-put_ne "requests" "version" (obj requests) stored keys_differ in
    (
      ground (arith, there, version, no_fields-put "requests" (obj requests) stored),
      ground (arith, there),
    )

open_queue-load :
    (locked : Bool) (place : Place) (action_hash : String) (f : StateFile) (key : String)
    (stored : Fields)
    → open_queue locked place action_hash f ≡ ok (key, stored)
    → load_queue f ≡ ok stored
unfolding open_queue pending_key
open_queue-load locked place action_hash f key stored h = ground arith

module _ (rt : Runtime) (place : Place) (risk action_hash : String) (now : ℕ) where
  pending_record-get :
      (created : ℤ)
      → (get "workspace" (pending_record place risk action_hash created now)
          ≡ some (text place.path))
        × (get "workspace_id" (pending_record place risk action_hash created now)
            ≡ some (text place.id))
  unfolding pending_record get string_discrete
  pending_record-get created = (refl, refl)

  pending_record-is_of :
      (created : ℤ) → is_of place (pending_record place risk action_hash created now) ≡ true
  unfolding is_of equals_text
  pending_record-is_of created =
      let (path, id) = pending_record-get created in
      ground (arith, path, id, =?_refl place.path, =?_refl place.id)

  pending_record-is_stale :
      (created : ℤ) (max_age later : ℕ)
      → later ≤ now + max_age
      → is_stale rt max_age later (some (pending_record place risk action_hash created now))
        ≡ ok false
  unfolding is_stale pending_record get string_discrete int_or_zero to_int older_than
  pending_record-is_stale created max_age later h = ground arith

  -- What a call of `add` that returns has done.
  add-parts :
      (locked writes : Bool) (f : StateFile) (row : Fields)
      → (add rt locked writes place risk action_hash now f).0 ≡ ok row
      → (stored : Fields) × (key : String) × (created : ℤ) × (load_queue f ≡ ok stored)
        × (row ≡ pending_record place risk action_hash created now)
        × ((add rt locked writes place risk action_hash now f).1
            ≡ written_file (put key (obj row) (requests_of stored)) stored)
  unfolding add new_record store_record secure_write_json
  add-parts locked writes f row h = elim (Result-cases (open_queue locked place action_hash f)) [
    | inl (e, o) ↦ absurd (ground arith)
    | inr ((key, stored), o) ↦
        elim (Result-cases (created_at rt now (as_fields (get key (requests_of stored))))) [
          | inl (e, c) ↦ absurd (ground arith)
          | inr (created, c) ↦ (
            stored,
            key,
            created,
            open_queue-load locked place action_hash f key stored o,
            ground arith,
            ground arith,
          )
        ]
  ]

  -- Once `add` has returned a record, list_for_workspace of the same workspace, if it returns no more
  -- than max_age seconds later, lists it.
  pub add-list_for_workspace :
      (locked writes : Bool) (f : StateFile) (row : Fields)
      → (add rt locked writes place risk action_hash now f).0 ≡ ok row
      → (again rewrites : Bool) (max_age later : ℕ) (rows : List (ℤ × Fields))
      → later ≤ now + max_age
      → (list_for_workspace rt again rewrites place max_age later
          (add rt locked writes place risk action_hash now f).1).0
        ≡ ok rows
      → Listed row rows
  add-list_for_workspace locked writes f row h again rewrites max_age later rows soon listed =
      let (stored, key, created, l, made, file) = add-parts locked writes f row h in
      let (loads, same) =
        load_queue-written (put key (obj row) (requests_of stored)) stored
          (load_queue-version f stored l) in
      list_for_workspace-Listed rt max_age later place row
        (rw made (pending_record-is_stale created max_age later soon))
        (rw made (pending_record-is_of created)) again rewrites
        (written_file (put key (obj row) (requests_of stored)) stored) _ key rows loads
        (ap (get key) same ∙ get-put key (obj row) (requests_of stored))
        (subst (λ g. (list_for_workspace rt again rewrites place max_age later g).0 ≡ ok rows) file
          listed)
