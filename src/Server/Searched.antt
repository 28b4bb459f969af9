-- ===== src/Server/Searched.antt =====
-- The bounds of `_grep`, and the directories that `_list_dir` cannot list, in src/gpthands/server.py.
use gpthands.Prelude.{
  ℕ, suc, ◌≤◌, ◌<◌, String, ◌<>◌, true, false, ◌||◌, Option, none, some, List, [], ◌∷◌, ◌++◌, ◌≡◌,
  refl, ap, ◌∙◌, arith, ok, err, length, length-append, leb, elem, ◌=?◌, Bool-cases, Result-cases,
  inl, inr, has_infix,
}
use gpthands.Prelude.Errors.{Error}
use gpthands.Json.{Fields, get}
use gpthands.Audit.Redact.{redact_text}
use gpthands.Policy.Defs.{FilePath}
use gpthands.Policy.Paths.{inside, resolve_path}
use gpthands.Server.World.{World, Surroundings, relative}
use gpthands.Server.Read.{insert_name, sorted_names, list_row, list_rows, list_dir, text_or}
use gpthands.Server.Search.{
  Search, max_results, max_scanned, search_lines, skipping, open_candidate, search_text,
  search_file, search_files, splitlines,
}

search_lines-bound :
    (show_line : ℕ → String) (rel pattern : String) (line_no : ℕ) (results lines : List String)
    → length results < max_results
    → length (search_lines show_line rel pattern line_no results lines) ≤ max_results
unfolding search_lines
search_lines-bound show_line rel pattern line_no results [] h = omega (arith, h)
search_lines-bound show_line rel pattern line_no results (line ∷ lines) h =
    elim (Bool-cases (has_infix pattern line)) [
      | inl hit ↦
          let row = rel <> (":" <> (show_line line_no <> (":" <> redact_text line))) in
          let longer = length-append results (row ∷ []) in
          elim (Bool-cases (leb max_results (length (results ++ row ∷ [])))) [
            | inl full ↦ ground (arith, hit, full, longer)
            | inr room ↦ ground (
              arith,
              hit,
              room,
              search_lines-bound show_line rel pattern (suc line_no) (results ++ row ∷ []) lines
                  (ground (arith, room)),
            )
          ]
      | inr miss ↦
          ground
            (arith, miss, search_lines-bound show_line rel pattern (suc line_no) results lines h)
    ]

abbrev IsBounded : Search → Type 0
IsBounded st = (length st.results ≤ max_results) × (st.scanned ≤ max_scanned)

module _ (s : Surroundings) (w : World) (pattern : String) where
  search_text-IsBounded :
      (st : Search) (found : Option (String × String))
      → length st.results < max_results
      → st.scanned < max_scanned
      → IsBounded (search_text s pattern st found)
  unfolding search_text
  search_text-IsBounded st none h k = (omega (arith, h), omega (arith, k))
  search_text-IsBounded st (some (rel, content)) h k =
      (search_lines-bound _ rel pattern 1 st.results (splitlines content) h, omega (arith, k))

  search_file-IsBounded :
      (st next : Search) (path : FilePath)
      → length st.results < max_results
      → st.scanned < max_scanned
      → search_file s w pattern st path ≡ ok next
      → IsBounded next
  unfolding search_file
  search_file-IsBounded st next path h k e =
      elim (Result-cases (skipping (open_candidate s w path))) [
        | inl (x, fails) ↦ ground arith
        | inr (found, opened) ↦ ground (arith, search_text-IsBounded st found h k)
      ]

  -- However many files there are and whatever they hold, the search of _grep that returns has found at
  -- most 200 lines and read at most 5,000 files.
  pub search_files-IsBounded :
      (st last : Search) (paths : List FilePath)
      → length st.results ≤ max_results
      → st.scanned ≤ max_scanned
      → search_files s w pattern st paths ≡ ok last
      → (length last.results ≤ max_results) × (last.scanned ≤ max_scanned)
  unfolding search_files
  search_files-IsBounded st last [] h k e = ground arith
  search_files-IsBounded st last (path ∷ paths) h k e =
      elim (Result-cases (search_file s w pattern st path)) [
        | inl (x, fails) ↦ ground arith
        | inr (next, found) ↦
            elim (Bool-cases (leb max_results (length st.results) || leb max_scanned st.scanned)) [
              | inl full ↦ ground arith
              | inr room ↦
                  let (fewer, less) =
                    search_file-IsBounded st next path (ground (arith, room)) (ground (arith, room))
                      found in
                  search_files-IsBounded next last paths fewer less (ground (arith, room, found))
            ]
      ]

elem-insert_name :
    (x name : String) (names : List String)
    → elem x (insert_name name names) ≡ (x =? name || elem x names)
unfolding elem insert_name
elem-insert_name x name [] = refl
elem-insert_name x name (other ∷ names) = ground (arith, elem-insert_name x name names)

elem-sorted_names : (x : String) (names : List String) → elem x (sorted_names names) ≡ elem x names
unfolding elem sorted_names
elem-sorted_names x [] = refl
elem-sorted_names x (name ∷ names) =
    elem-insert_name x name (sorted_names names)
    ∙ ap (λ b. x =? name || b) (elem-sorted_names x names)

module _ (s : Surroundings) (w : World) (path : FilePath) (child : String) (target : FilePath)
    (leads : s.resolve false (path ++ child ∷ []) ≡ ok target)
    (outside : inside s.policy.workspace target ≡ false) where
  list_row-fails : (row : String) → list_row s w path child ≡ ok row → ⊥
  unfolding list_row relative
  list_row-fails row h = ground (arith, leads, outside)

  list_rows-fails :
      (children rows : List String)
      → elem child children ≡ true
      → list_rows s w path children ≡ ok rows
      → ⊥
  unfolding list_rows elem
  list_rows-fails [] rows there h = ground arith
  list_rows-fails (other ∷ children) rows there h = elim (Result-cases (list_row s w path other)) [
    | inl (x, fails) ↦ ground arith
    | inr (row, found) ↦ elim (Result-cases (list_rows s w path children)) [
      | inl (x, fails) ↦ ground arith
      | inr (more, all) ↦ ground (arith, list_row-fails row, list_rows-fails children more)
    ]
  ]

  -- A directory that holds a link whose target lies outside the workspace cannot be listed at all:
  -- _list_dir raises, and does not list the link as blocked.
  pub list_dir-escaping :
      (args : Fields) (t : String)
      → text_or "." (get "target" args) ≡ ok t
      → resolve_path s.resolve s.policy t true ≡ ok path
      → elem child (s.iterdir path) ≡ true
      → (raised : Error) × (list_dir s args w ≡ err raised)
  unfolding list_dir
  list_dir-escaping args t given found there = elim (Result-cases (list_dir s args w)) [
    | inl (raised, fails) ↦ (raised, unfold list_dir in fails)
    | inr (answer, lists) ↦
        elim (Result-cases (list_rows s w path (sorted_names (s.iterdir path)))) [
          | inl (x, fails) ↦ absurd (ground (arith, given, found))
          | inr (rows, all) ↦
              absurd (list_rows-fails _ rows (elem-sorted_names child (s.iterdir path) ∙ there) all)
        ]
  ]
