-- ===== src/Trust/Store.antt =====
-- What trusting and untrusting a workspace changes.
use mathlib.Core.Path.{subst}
use package.text.Mathlib.TextEquality.{eq_iff}
use gpthands.Prelude.{
  ℕ, String, Bool, true, false, Option, some, ◌≡◌, ◌≢◌, refl, sym, ap, ◌∙◌, arith, ok, =?_refl,
  string_discrete, Result-cases, Bool-cases, inl, inr,
}
use gpthands.Json.{
  obj, text, Fields, get, put, as_fields, equals_int, equals_text, get-put, get-put_ne,
}
use gpthands.State.{no_fields-put, StateFile, read_json_object, secure_write_json, no_fields}
use gpthands.Trust.Defs.{
  Workspace, empty_store, load_store, workspaces_of, trusts, workspace_key, trust_record,
  with_workspaces, trust, opened_store, is_trusted,
}

empty_version : equals_int (get "version" empty_store) 1 ≡ true
unfolding get equals_int string_discrete
empty_version = refl

-- The data that `_load` returns has version 1.
load_store-version :
    (f : StateFile) (stored : Fields)
    → load_store f ≡ ok stored
    → equals_int (get "version" stored) 1 ≡ true
unfolding load_store
load_store-version f stored h = elim (Result-cases (read_json_object f)) [
  | inl (e, r) ↦ absurd (ground arith)
  | inr (found, r) ↦ elim (Bool-cases (no_fields found)) [
    | inl none_there ↦
        subst (λ d. equals_int (get "version" d) 1 ≡ true) (ground arith) empty_version
    | inr some_there ↦ ground arith
  ]
]

keys_differ : ◌≢◌ {A = String} "workspaces" "version"
keys_differ e = ground (arith, e, eq_iff "workspaces" "version")

-- The file after a write of the workspaces.
abbrev written_file : Fields → Fields → StateFile
written_file workspaces stored = record {
  exists = true;
  symlink = false;
  is_file = true;
  content = some (with_workspaces workspaces stored);
}

load_store-written :
    (workspaces stored : Fields)
    → equals_int (get "version" stored) 1 ≡ true
    → (load_store (written_file workspaces stored) ≡ ok (put "workspaces" (obj workspaces) stored))
      × (workspaces_of (put "workspaces" (obj workspaces) stored) ≡ workspaces)
unfolding load_store read_json_object workspaces_of as_fields with_workspaces
load_store-written workspaces stored v =
    let there = get-put "workspaces" (obj workspaces) stored in
    let version = get-put_ne "workspaces" "version" (obj workspaces) stored keys_differ in
    (
      ground (arith, there, version, no_fields-put "workspaces" (obj workspaces) stored),
      ground (arith, there),
    )

module _ (sha256 : String → String) (w : Workspace) (now : ℕ) (label : Option String)
    (f : StateFile) (r : Fields) (writes : Bool) where
  -- What a call of `trust` that returns has done.
  trust-parts :
      (trust sha256 writes w now label f).0 ≡ ok r
      → (stored : Fields) × (load_store f ≡ ok stored)
        × (w.is_dir ≡ true)
        × ((trust sha256 writes w now label f).1
            ≡ written_file
                (put
                  (sha256 w.canonical)
                  (obj (trust_record sha256 w now label))
                  (workspaces_of stored))
                stored)
  unfolding trust opened_store workspace_key secure_write_json
  trust-parts h = elim (Result-cases (load_store f)) [
    | inl (e, l) ↦ absurd (ground arith)
    | inr (stored, l) ↦ (stored, l, ground arith, ground arith)
  ]

  -- The answer of `is_trusted` after the write, for any workspace.
  written-is_trusted :
      (workspaces stored : Fields) (other : Workspace)
      → equals_int (get "version" stored) 1 ≡ true
      → other.is_dir ≡ true
      → is_trusted sha256 other (written_file workspaces stored)
        ≡ ok (trusts (get (sha256 other.canonical) workspaces) other.canonical)
  unfolding is_trusted workspace_key
  written-is_trusted workspaces stored other v dir =
      let (loads, same) = load_store-written workspaces stored v in ground (arith, loads, same)

  get-trust_record : get "path" (trust_record sha256 w now label) ≡ some (text w.canonical)
  unfolding trust_record get string_discrete
  get-trust_record = refl

  trust_record-trusts : trusts (some (obj (trust_record sha256 w now label))) w.canonical ≡ true
  unfolding trusts equals_text
  trust_record-trusts = ground (arith, get-trust_record, =?_refl w.canonical)

  -- Once `trust` has returned, is_trusted answers True for the workspace; for any other workspace that
  -- is a directory and whose path has another digest it answers what it answered before.
  pub trust-is_trusted :
      (trust sha256 writes w now label f).0 ≡ ok r
      → (is_trusted sha256 w (trust sha256 writes w now label f).1 ≡ ok true)
        × ((other : Workspace)
            → other.is_dir ≡ true
            → sha256 w.canonical ≢ sha256 other.canonical
            → is_trusted sha256 other (trust sha256 writes w now label f).1
              ≡ is_trusted sha256 other f)
  trust-is_trusted h =
      let (stored, l, dir, file) = trust-parts h in
      let v = load_store-version f stored l in
      let new =
        put (sha256 w.canonical) (obj (trust_record sha256 w now label)) (workspaces_of stored) in
      (
        ap (is_trusted sha256 w) file
            ∙ written-is_trusted new stored w v dir
            ∙ ap (λ t. ok (trusts t w.canonical))
                (get-put (sha256 w.canonical) (obj (trust_record sha256 w now label))
                  (workspaces_of stored))
            ∙ ap (λ b. ok b) trust_record-trusts,
        λ other there differ.
            ap (is_trusted sha256 other) file
            ∙ written-is_trusted new stored other v there
            ∙ ap (λ t. ok (trusts t other.canonical))
                (get-put_ne (sha256 w.canonical) (sha256 other.canonical)
                  (obj (trust_record sha256 w now label)) (workspaces_of stored) differ)
            ∙ sym (unfold is_trusted workspace_key in (ground (arith, l, there))),
      )
