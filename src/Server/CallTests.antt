-- ===== src/Server/CallTests.antt =====
-- One call, one search and one directory with a link that leads out.
use gpthands.Prelude.{
  true, false, [], ◌∷◌, ◌=?◌, ◌≡◌, ◌≤◌, refl, arith, ok, err, if◌then◌else◌, string_discrete,
  is_empty, elem, strip, has_prefix, has_infix, split, join, lower, replace_char, length,
}
use gpthands.Prelude.Errors.{Error}
use gpthands.Json.{null, Json, end, get}
use gpthands.Audit.Samples.{runtime}
use gpthands.Approval.Defs.{is_line_break, onto_first}
use gpthands.Audit.Redact.{redact_text}
use gpthands.Policy.Paths.{
  resolve_path, inside, file_name, suffix, suffix_of, path_text, check_protected_path,
  check_secret_path,
}
use gpthands.Risk.{path_parts, last_or_empty}
use gpthands.SafeWrite.Stable.{below, relative_text}
use gpthands.Server.World.{Surroundings, is_file, relative}
use gpthands.Server.Read.{entry_at, list_dir, text_or}
use gpthands.Server.Search.{
  Search, open_candidate, readable, search_file, search_files, search_lines, search_text, skipping,
  splitlines, max_results, max_scanned,
}
use gpthands.Server.Call.{call_tool}
use gpthands.Server.Confined.{IsOutside, IsSandboxed}
use gpthands.Server.Recorded.{call_tool-confined}
use gpthands.Server.Searched.{search_files-IsBounded, list_dir-escaping}
use gpthands.Server.Samples.{policy, disk, server, world, edit_args}

-- The policy of the tests requires the sandbox.
boxed : IsSandboxed server
boxed = record {
  required = refl;
  no_container = refl;
  confined = λ r p d path here backend out. refl;
}

elsewhere : IsOutside server ("etc" ∷ "passwd" ∷ [])
unfolding inside string_discrete
elsewhere = record { workspace = refl; home = refl; scratch = refl }

call_tool-confined_example :
    (call_tool server null "apply_edit" edit_args world).1.disk ("etc" ∷ "passwd" ∷ [])
    ≡ disk ("etc" ∷ "passwd" ∷ [])
call_tool-confined_example =
    call_tool-confined server null "apply_edit" world boxed edit_args ("etc" ∷ "passwd" ∷ [])
      elsewhere

abbrev nothing : Search
nothing = record { results = []; scanned = 0 }

abbrev one_file : Search
one_file = record { results = "a.txt::old" ∷ []; scanned = 1 }

searched : search_files server world "ol" nothing (("work" ∷ "a.txt" ∷ []) ∷ []) ≡ ok one_file
unfolding search_files search_file entry_at is_file open_candidate relative inside string_discrete
    below relative_text join resolve_path is_empty strip has_prefix path_parts split
    check_protected_path check_secret_path elem lower file_name last_or_empty suffix suffix_of
    path_text has_infix replace_char readable skipping search_text splitlines search_lines
    redact_text is_line_break onto_first
searched = refl

none_yet : length nothing.results ≤ max_results
none_yet = omega arith

none_read : nothing.scanned ≤ max_scanned
none_read = omega arith

search_files-IsBounded_example :
    (length one_file.results ≤ max_results) × (one_file.scanned ≤ max_scanned)
search_files-IsBounded_example =
    search_files-IsBounded server world "ol" nothing one_file (("work" ∷ "a.txt" ∷ []) ∷ [])
      none_yet none_read searched

-- A workspace whose only entry leads to /etc.
abbrev linked : Surroundings
linked = record server {
  resolve = λ strict path. if join "/" path =? "work/link" then ok ("etc" ∷ []) else ok path;
  iterdir = λ path. "link" ∷ [];
}

leads : linked.resolve false ("work" ∷ "link" ∷ []) ≡ ok ("etc" ∷ [])
unfolding join string_discrete
leads = refl

outside : inside policy.workspace ("etc" ∷ []) ≡ false
unfolding inside string_discrete
outside = refl

given : text_or "." (get "target" end) ≡ ok "."
unfolding text_or get
given = refl

found : resolve_path linked.resolve policy "." true ≡ ok ("work" ∷ [])
unfolding resolve_path is_empty strip has_prefix path_parts split inside string_discrete join
    check_protected_path check_secret_path elem lower file_name last_or_empty suffix suffix_of
    path_text has_infix replace_char
found = refl

there : elem "link" ("link" ∷ []) ≡ true
unfolding elem string_discrete
there = refl

list_dir-escaping_example : (raised : Error) × (list_dir linked end world ≡ err raised)
list_dir-escaping_example =
    list_dir-escaping linked world ("work" ∷ []) "link" ("etc" ∷ []) leads outside end "." given
      found there

-- A server whose JSON library writes one line for every record.
abbrev logging : Surroundings
logging = record server { runtime = runtime }
