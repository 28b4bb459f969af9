-- ===== src/SafeWrite/Complete.antt =====
-- What `_posix_atomic_write` of src/gpthands/safe_write.py leaves in the directory, whatever fails.
use Prim.Native.String.append
use package.text.Mathlib.TextLemmas.{append_assoc, append-nil, nil-append}
use gpthands.Prelude.{
  ℕ, zero, suc, String, ◌<>◌, Bool, true, false, not, Option, none, some, List, [], ◌∷◌, ◌≡◌, ◌≢◌,
  ◌⊎◌, inl, inr, refl, sym, ap, ◌∙◌, arith, ◌==◌, =?_refl, if◌then◌else◌, is_empty, take_chars,
  drop_chars, ok, err, Bool-cases, cons_char,
}
use gpthands.Prelude.Errors.{Result, Error}
use gpthands.SafeWrite.Defs.{
  Entry, file, Directory, set_entry, Host, write_all, is_some, is_directory, cleaned, sync_parent,
  commit_replace, commit_link, commit,
}

take_chars-drop_chars : (n : ℕ) (s : String) → take_chars n s <> drop_chars n s ≡ s
unfolding take_chars drop_chars
take_chars-drop_chars zero s = nil-append s
take_chars-drop_chars (suc n) String.[] = nil-append ""
take_chars-drop_chars (suc n) (String.◌∷◌ c s) =
    append.cons c _ _ ∙ ap (cons_char c) (take_chars-drop_chars n s)

empty-eq : (s : String) → is_empty s ≡ true → s ≡ ""
unfolding is_empty
empty-eq String.[] h = refl
empty-eq (String.◌∷◌ c s) h = ground arith

-- A loop that ends well has written everything.
pub write_all_complete :
    (written view : String) (ns : List ℕ)
    → (write_all written view ns).0 ≡ true
    → (write_all written view ns).1 ≡ written <> view
unfolding write_all
write_all_complete written view [] h =
    ap (λ v. v) (sym (append-nil written)) ∙ ap (λ v. written <> v) (sym (empty-eq view h))
write_all_complete written view (n ∷ ns) h = elim (Bool-cases (is_empty view)) [
  | inl over ↦
      rw over (sym (append-nil written) ∙ ap (λ v. written <> v) (sym (empty-eq view over)))
  | inr left ↦ elim (Bool-cases (n == 0)) [
    | inl stuck ↦ ground arith
    | inr wrote ↦
        rw (left, wrote)
          (write_all_complete (written <> take_chars n view) (drop_chars n view) ns (ground arith)
            ∙ append_assoc written (take_chars n view) (drop_chars n view)
            ∙ ap (λ v. written <> v) (take_chars-drop_chars n view))
  ]
]

pub set_entry-same :
    (name : String) (e : Option Entry) (d : Directory) → set_entry name e d name ≡ e
unfolding set_entry
set_entry-same name e d = ground (arith, =?_refl name)

pub set_entry-other :
    (name n : String) (e : Option Entry) (d : Directory) → n ≢ name → set_entry name e d n ≡ d n
unfolding set_entry
set_entry-other name n e d differ = ground arith

pub if-intro {ℓ κ} :
    {A : Type ℓ} (P : A → Type κ) (b : Bool) (x y : A)
    → (b ≡ true → P x)
    → (b ≡ false → P y)
    → P (if b then x else y)
if-intro P true x y f g = f refl
if-intro P false x y f g = g refl

module _ (h : Host) (name : String) where
  -- The commit of a temporary file, over one name of the directory at a time.
  module _ (d : Directory) (content : String) (overwrite : Bool)
      (filled : d h.temp_name ≡ some (file content)) (apart : name ≢ h.temp_name) where
    abbrev swapped : Directory
    swapped = set_entry h.temp_name none (set_entry name (d h.temp_name) d)

    swapped-name : swapped name ≡ some (file content)
    swapped-name = set_entry-other h.temp_name name none _ apart ∙ set_entry-same name _ d ∙ filled

    swapped-other : (n : String) → n ≢ name → n ≢ h.temp_name → swapped n ≡ d n
    swapped-other n a b = set_entry-other h.temp_name n none _ b ∙ set_entry-other name n _ d a

    pub cleaned-other : (n : String) → n ≢ h.temp_name → cleaned h d n ≡ d n
    unfolding cleaned
    cleaned-other n b = ground (arith, set_entry-other h.temp_name n none d b)

    pub cleaned-temp : h.unlinks ≡ true → cleaned h d h.temp_name ≡ none
    unfolding cleaned
    cleaned-temp gone = ground (arith, set_entry-same h.temp_name none d)

    -- A commit raises and leaves the target as it is, or puts the file in its place; a failure to
    -- unlink leaves both names.
    pub data Committed : Result (Unit {0}) × Directory → Type 0 where
      undone : (e : Error) → Committed (err e, cleaned h d)
      placed : (r : Result (Unit {0})) → Committed (r, swapped)
      both_names :
          (e : Error) → h.unlinks ≡ false → Committed (err e, set_entry name (d h.temp_name) d)

    sync_parent-Committed : Committed (sync_parent h swapped)
    unfolding sync_parent
    sync_parent-Committed = if-intro Committed h.syncs_parent _ _ (λ e. placed _) (λ e. placed _)

    commit_replace-Committed : Committed (commit_replace h name d)
    unfolding commit_replace
    commit_replace-Committed =
        if-intro Committed (not h.replaces) _ _ (λ e. undone _)
          (λ e.
            if-intro Committed (is_directory (d name)) _ _ (λ f. undone _)
              (λ f. sync_parent-Committed))

    commit_link-Committed : Committed (commit_link h name d)
    unfolding commit_link
    commit_link-Committed =
        if-intro Committed (is_some (d name)) _ _ (λ e. undone _)
          (λ e.
            if-intro Committed (not h.links) _ _ (λ f. undone _)
              (λ f.
                if-intro Committed (not h.unlinks) _ _ (λ g. both_names _ (ground (arith, g)))
                  (λ g. sync_parent-Committed)))

    pub commit-Committed : Committed (commit h overwrite name d)
    unfolding commit
    commit-Committed = elim overwrite as (λ b. Committed (commit h b name d)) [
      | true ↦ commit_replace-Committed
      | false ↦ commit_link-Committed
    ]

    -- The target's entry afterwards, and every other name's.
    pub Committed-name :
        (r : Result (Unit {0}) × Directory)
        → Committed r
        → ((r.1 name ≡ d name) × (r.0 ≢ ok tt)) ⊎ (r.1 name ≡ some (file content))
    Committed-name _ (undone e) = inl (cleaned-other name apart, λ k. ground (arith, k))
    Committed-name _ (placed r) = inr swapped-name
    Committed-name _ (both_names e stays) = inr (set_entry-same name _ d ∙ filled)

    pub Committed-other :
        (r : Result (Unit {0}) × Directory)
        → Committed r
        → (n : String) → n ≢ name
        → n ≢ h.temp_name
        → r.1 n ≡ d n
    Committed-other _ (undone e) n a b = cleaned-other n b
    Committed-other _ (placed r) n a b = swapped-other n a b
    Committed-other _ (both_names e stays) n a b = set_entry-other name n _ d a

    pub Committed-temp :
        (r : Result (Unit {0}) × Directory)
        → Committed r
        → h.unlinks ≡ true
        → r.1 h.temp_name ≡ none
    Committed-temp _ (undone e) gone = cleaned-temp gone
    Committed-temp _ (placed r) gone = set_entry-same h.temp_name none _
    Committed-temp _ (both_names e stays) gone = ground arith
