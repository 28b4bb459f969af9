-- ===== src/Server/Search.antt =====
-- `_grep` of src/gpthands/server.py, with regex mode disabled as in src/gpthands/stable_server.py.
use Prim.Native.Char.{code}
use gpthands.Prelude.{
  ℕ, suc, ◌+◌, String, ◌<>◌, Bool, true, false, not, ◌&&◌, ◌||◌, Option, none, some, List, [], ◌∷◌,
  ◌++◌, ltb, leb, len, min, length, ◌==◌, if◌then◌else◌, join, has_prefix, has_infix, value_error,
  policy_error, os_error, ok, err, raise, ◌>>=◌, ◌>>◌,
}
use gpthands.Prelude.Errors.{Result, error, require}
use gpthands.Json.{pos, Json, bool, int, text, obj, Fields, end, field, get}
use gpthands.Approval.Defs.{is_line_break, onto_first}
use gpthands.Audit.Redact.{redact_text}
use gpthands.Policy.Defs.{FilePath}
use gpthands.Policy.Paths.{resolve_path}
use gpthands.SafeWrite.Defs.{Entry, file}
use gpthands.Server.World.{World, Surroundings, Answer, require_str, is_file, relative}
use gpthands.Server.Read.{text_or, entry_at}

-- text.splitlines()
unfoldable pub splitlines : String → List String
splitlines String.[] = []
splitlines (String.◌∷◌ c s) =
    let rest = splitlines s in
    if code c == 13 && has_prefix "\n" s
    then rest
    else if is_line_break (code c)
    then "" ∷ rest
    else onto_first c rest

-- The results so far of a search, and how many files it has read.
pub record Search : Type 0 where
  pub results : List String
  pub scanned : ℕ

abbrev pub max_results : ℕ
max_results = 200

abbrev pub max_scanned : ℕ
max_scanned = 5000

abbrev pub max_grep_bytes : ℕ
max_grep_bytes = 2000000

module _ (show_line : ℕ → String) where
  -- The loop over the lines of a file.
  unfoldable pub search_lines : String → String → ℕ → List String → List String → List String
  search_lines rel pattern line_no results [] = results
  search_lines rel pattern line_no results (line ∷ lines) =
      let hit = has_infix pattern line in
      let now =
        if hit
        then results ++ (rel <> (":" <> (show_line line_no <> (":" <> redact_text line)))) ∷ []
        else results in
      let rest = search_lines rel pattern (suc line_no) now lines in
      if hit && leb max_results (length now) then now else rest

-- `except (PolicyError, OSError)`, which goes on with the next file
unfoldable pub skipping {ℓ} : {A : Type ℓ} → Result (Option A) → Result (Option A)
skipping (err (error policy_error message)) = ok none
skipping (err (error os_error message)) = ok none
skipping (err (error kind message)) = err (error kind message)
skipping (ok found) = ok found

module _ (s : Surroundings) where
  unfoldable pub readable : String → Option Entry → Result (Option (String × String))
  readable rel (some (file content)) =
      if ltb (min s.policy.max_read_bytes max_grep_bytes) (len content) || not (s.is_utf8 content)
      then ok none
      else ok (some (rel, content))
  readable rel entry = raise os_error "cannot read the file"

  -- The `try` of the loop over the files: the file's name and text, unless it is left out.
  unfoldable pub open_candidate : World → FilePath → Result (Option (String × String))
  open_candidate w path = do
    rel ← relative s path
    safe ← resolve_path s.resolve s.policy rel true
    readable rel (w.disk safe)

  unfoldable pub search_text : String → Search → Option (String × String) → Search
  search_text pattern st none = st
  search_text pattern st (some (rel, content)) = record {
    results =
        search_lines (λ n. s.runtime.show (some (int (pos n)))) rel pattern 1 st.results
          (splitlines content);
    scanned = st.scanned + 1;
  }

  unfoldable pub search_file : World → String → Search → FilePath → Result Search
  search_file w pattern st path =
      if not (is_file (entry_at s w path))
      then ok st
      else do found ← skipping (open_candidate w path); ok (search_text pattern st found)

  -- The loop over the files.
  unfoldable pub search_files : World → String → Search → List FilePath → Result Search
  search_files w pattern st [] = ok st
  search_files w pattern st (path ∷ paths) =
      let rest = search_file w pattern st path >>= λ next. search_files w pattern next paths in
      if leb max_results (length st.results) || leb max_scanned st.scanned then ok st else rest

  -- args.get("regex", False) is True
  unfoldable pub is_regex : Option Json → Bool
  is_regex (some (bool b)) = b
  is_regex _ = false

  -- isinstance(args.get("regex", False), bool)
  unfoldable pub is_flag : Option Json → Bool
  is_flag none = true
  is_flag (some (bool b)) = true
  is_flag (some v) = false

  -- _grep, where regex mode is disabled
  unfoldable pub grep : Fields → World → Result Answer
  grep args w = do
    require (not (is_regex (get "regex" args))) policy_error
        "regex grep is disabled in stable v1; use literal search"
    pattern ← require_str args "pattern" false
    target ← text_or "." (get "target" args)
    require (is_flag (get "regex" args)) value_error
        "target must be string and regex must be boolean"
    root ← resolve_path s.resolve s.policy target true
    found ←
        search_files w pattern (record { results = []; scanned = 0 })
          (if is_file (w.disk root) then root ∷ [] else s.rglob root)
    ok (
      join "\n" found.results,
      obj (
          field "target" (text target) (
            field "files_scanned" (int (pos found.scanned)) (
              field "matches" (int (pos (length found.results)))
                (field "risk" (text "READ") end)))),
    )
