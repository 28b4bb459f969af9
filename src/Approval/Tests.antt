-- ===== src/Approval/Tests.antt =====
-- A token made, used once and refused the second time.
use Prim.Native.Nat.{◌%◌}
use gpthands.Prelude.{
  String, ◌<>◌, true, false, none, some, [], ◌∷◌, ◌≡◌, ◌≢◌, ◌≤◌, refl, ok, is_empty, elem, strip,
  lstrip, rstrip, cons_trimmed, is_space, string_discrete, all_chars, inr, arith, sym, count,
  if◌then◌else◌, ◌=?◌, upper,
}
use gpthands.Json.{obj, Fields, get, equals_int, equals_text}
use gpthands.Audit.Defs.{written_whole, Runtime, to_int, to_str}
use gpthands.Risk.{write, exec, parse}
use gpthands.Approval.Defs.{
  Store, nonces, validate_used_store, load_consumed, consume_nonce, opened, secured, StoreIo,
  with_nonce, written, append_nonce, read_consumed, split_lines,
}
use gpthands.Approval.Tokens.{
  Crypto, Demand, payload_fields, action_fields, issue, b64d, equals_signs, on_head, split_dot,
  past, bound_to, level_of, int_or_zero, text_of, dict_of, spend, returning, verified_payload,
  check_payload, inspect, validate,
}
use gpthands.Approval.Replay.{is_hex, Call, after_calls}
use gpthands.Approval.Acceptance.{IsGranted}
use gpthands.Approval.OneUse.{validate-IsGranted, validate-once}
use gpthands.Approval.Issue.{is_digit64, IsBase64, IsCovered, IsLegible, IsQuiet, issue-validate}

abbrev crypto : Crypto
crypto = record {
  hmac = λ key raw. "mac1";
  b64encode = λ t. t;
  b64decode = λ t. some t;
  workspace_id = λ path. "w1";
}

abbrev fields : Fields
fields = payload_fields crypto ("work" ∷ []) exec 400 "ab12" (some "h1")

abbrev runtime : Runtime
runtime = record {
  sha256 = λ t. t;
  loads = λ t. if t =? "pay1" then some (obj fields) else none;
  dumps = λ v. "pay1";
  dumps_sorted = λ v. "pay1";
  dumps_compact = λ v. "pay1";
  show = λ v. "";
  parse_int = λ t. none;
  truncate = λ z. z;
}

abbrev store : Store
store = record {
  file = record {
    posix = true;
    exists = true;
    symlink = false;
    regular = true;
    private = true;
    owned = true;
    lines = "00ff" ∷ [];
    rest = "";
  };
  consumed = [];
}

abbrev quiet_io : StoreIo
quiet_io = record {
  locked = true;
  reads = true;
  opens = true;
  stats = true;
  secures = true;
  writes = written_whole;
  syncs = true;
}

abbrev demand : Demand
demand = record {
  now = 200;
  workspace = "work" ∷ [];
  minimum = write;
  action = some "h1";
  consume = true;
}

accepted : (validate crypto runtime "k" quiet_io demand "pay1.mac1" store).0 ≡ ok fields
unfolding validate inspect is_empty verified_payload split_dot on_head b64d equals_signs
    string_discrete dict_of check_payload payload_fields action_fields get equals_int equals_text
    int_or_zero to_int past level_of text_of to_str parse upper strip lstrip rstrip cons_trimmed
    is_space bound_to spend returning consume_nonce read_consumed append_nonce written with_nonce
    load_consumed validate_used_store nonces elem split_lines
accepted = refl

hex : all_chars is_hex "ab12" ≡ true
unfolding all_chars is_hex
hex = refl

hex_nonce : all_chars is_hex (text_of runtime (get "nonce" fields)) ≡ true
unfolding all_chars is_hex text_of to_str get payload_fields string_discrete
hex_nonce = refl

abbrev again : Call
again = record { io = quiet_io; consume = false; nonce = "00aa" }

-- Ten seconds later, with a lower demand.
abbrev later : Demand
later = record {
  now = 210;
  workspace = "work" ∷ [];
  minimum = write;
  action = none;
  consume = false;
}

validate-IsGranted_example : IsGranted crypto runtime "k" demand "pay1.mac1" fields
validate-IsGranted_example =
    validate-IsGranted crypto runtime "k" "pay1.mac1" quiet_io demand store fields accepted

validate-once_example :
    (validate crypto runtime "k" quiet_io later "pay1.mac1" (
      after_calls (again ∷ []) (validate crypto runtime "k" quiet_io demand "pay1.mac1" store).1)).0
    ≢ ok fields
validate-once_example =
    validate-once crypto runtime "k" "pay1.mac1" quiet_io demand store fields refl hex_nonce refl
      refl accepted (again ∷ []) quiet_io later fields

consumed_once : (consume_nonce quiet_io "ab12" store).0 ≡ ok tt
unfolding consume_nonce read_consumed append_nonce written with_nonce load_consumed
    validate_used_store split_lines nonces is_empty strip lstrip rstrip cons_trimmed is_space elem
    string_discrete
consumed_once = refl

full : is_empty "ab12" ≡ false
unfolding is_empty
full = refl

covered : IsCovered crypto ("work" ∷ []) exec 400 "ab12" (some "h1") demand
unfolding is_empty
covered = record {
  unexpired = omega arith;
  workspace_same = refl;
  risk_covers = omega arith;
  action_same = inr ("h1", refl, refl, refl);
}

plain :
    (raw : String)
    → all_chars is_digit64 raw ≡ true
    → count raw % 4 ≡ 0
    → raw <> "" ≡ raw
    → IsBase64 crypto raw
unfolding equals_signs
plain raw digits whole joined = record {
  body = raw;
  padding = 0;
  encoded = sym joined;
  digits = digits;
  few = omega arith;
  whole = omega (arith, whole);
  decodes = refl;
}

legible : IsLegible crypto ("work" ∷ []) exec 400 "ab12" (some "h1") runtime "k" fields
unfolding all_chars is_digit64 string_discrete
legible = record {
  base64 = plain "pay1" refl refl refl;
  base64_code = plain "mac1" refl refl refl;
  reads = refl;
  values = λ k. refl;
}

readable : load_consumed store.file ≡ ok ("00ff" ∷ [])
unfolding load_consumed validate_used_store split_lines nonces is_empty strip lstrip rstrip
    cons_trimmed is_space
readable = refl

fresh : elem "ab12" ("00ff" ∷ []) ≡ false
unfolding elem string_discrete
fresh = refl

lifetime : (1 ≤ 300) × (300 ≤ 3600)
lifetime = (omega arith, omega arith)

quiet : IsQuiet quiet_io
quiet = record {
  locked = refl;
  reads = refl;
  opens = refl;
  stats = refl;
  secures = refl;
  whole = refl;
  syncs = refl;
}

issue-validate_example :
    (token : String) × (issue crypto runtime "k" 100 "ab12" ("work" ∷ []) exec 300 (some "h1")
      ≡ ok token)
    × (validate crypto runtime "k" quiet_io demand token store ≡ (
      ok fields,
      record {
        file = with_nonce written_whole "ab12" (secured (opened store.file));
        consumed = "00ff" ∷ "ab12" ∷ [];
      },
    ))
issue-validate_example =
    issue-validate crypto ("work" ∷ []) exec 400 "ab12" (some "h1") runtime "k" fields legible 100
      300 demand store ("00ff" ∷ []) refl lifetime.0 lifetime.1 covered full refl readable fresh
      quiet_io quiet
