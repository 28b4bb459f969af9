-- ===== src/Pending/Tests.antt =====
-- One action, added and listed.
use gpthands.Prelude.{
  ◌+◌, ◌≤◌, String, true, false, none, [], ◌∷◌, ◌≡◌, refl, arith, ok, All, all_chars,
  string_discrete,
}
use gpthands.Json.{pos, Fields, get, put, as_fields, equals_int, equals_text}
use gpthands.State.{StateFile, read_json_object, secure_write_json}
use gpthands.Audit.Defs.{Runtime, to_int}
use gpthands.Approval.Tokens.{int_or_zero}
use gpthands.Pending.Defs.{
  Place, load_queue, requests_of, with_requests, is_hash_digit, pending_key, open_queue, older_than,
  created_at, pending_record, new_record, store_record, add, is_stale, is_of, sweep, insert_row,
  sorted_rows, list_swept, list_for_workspace,
}
use gpthands.Pending.Queue.{IsCurrent, IsNewestFirst, list_for_workspace-IsCurrent}
use gpthands.Pending.Added.{Listed}
use gpthands.Pending.Shown.{add-list_for_workspace}

abbrev runtime : Runtime
runtime = record {
  sha256 = λ t. t;
  loads = λ t. none;
  dumps = λ v. "";
  dumps_sorted = λ v. "";
  dumps_compact = λ v. "";
  show = λ v. "";
  parse_int = λ t. none;
  truncate = λ z. z;
}

abbrev place : Place
place = record { path = "/work"; id = "w1" }

abbrev action : String
action = "0123456789abcdef0123456789abcdef0123456789abcdef0123456789abcdef"

abbrev no_file : StateFile
no_file = record { exists = false; symlink = false; is_file = false; content = none }

abbrev row : Fields
row = pending_record place "EXEC" action (pos 100) 100

abbrev queue : StateFile
queue = (add runtime true true place "EXEC" action 100 no_file).1

added : (add runtime true true place "EXEC" action 100 no_file).0 ≡ ok row
unfolding add open_queue pending_key all_chars is_hash_digit load_queue read_json_object new_record
    created_at requests_of get string_discrete as_fields store_record secure_write_json
added = refl

listed : (list_for_workspace runtime true true place 3600 200 queue).0 ≡ ok ((pos 100, row) ∷ [])
unfolding list_for_workspace add open_queue pending_key all_chars is_hash_digit load_queue
    read_json_object new_record created_at requests_of get string_discrete as_fields store_record
    secure_write_json with_requests put equals_int sweep is_stale pending_record int_or_zero to_int
    older_than is_of equals_text list_swept sorted_rows insert_row
listed = refl

recent : 200 ≤ 100 + 3600
recent = omega arith

list_for_workspace-IsCurrent_example :
    All (IsCurrent runtime 3600 200 place) ((pos 100, row) ∷ [])
    × IsNewestFirst ((pos 100, row) ∷ [])
list_for_workspace-IsCurrent_example =
    list_for_workspace-IsCurrent runtime 3600 200 place true true queue ((pos 100, row) ∷ []) listed

add-list_for_workspace_example : Listed row ((pos 100, row) ∷ [])
add-list_for_workspace_example =
    add-list_for_workspace runtime place "EXEC" action 100 true true no_file row added true true
      3600 200 ((pos 100, row) ∷ []) recent listed
