-- ===== src/Control/Tests.antt =====
-- A person approves an action by its hash.
use gpthands.Prelude.{
  String, true, false, none, some, [], ◌∷◌, ◌=?◌, ◌≡◌, refl, ok, if◌then◌else◌, string_discrete,
  is_empty, strip, upper, lower, elem, has_infix, take_chars, all_chars,
}
use gpthands.Json.{pos, get, as_fields}
use gpthands.Trust.Defs.{is_value}
use gpthands.State.{StateFile, read_json_object}
use gpthands.Risk.{parse}
use gpthands.Approval.Tokens.{issue, sign, b64e, rstrip_equals}
use gpthands.Pending.Defs.{load_queue, open_queue, pending_key, requests_of}
use gpthands.Pending.Defs as Pending
use gpthands.Control.Defs.{
  Control, Post, Setting, token_page, Form, form_get, is_hex_digit, valid_action_hash,
  require_loopback_host, check_url, body_within, read_form, require_csrf, ttl_of, issue_token,
  issue_form, finish_issue, approve, act, authorize, shown, act_on, do_post,
}
use gpthands.Control.Issued.{IsIssued, do_post-IsIssued}

abbrev action : String
action = "0123456789abcdef0123456789abcdef0123456789abcdef0123456789abcdef"

abbrev form : Form
form key =
    if key =? "csrf"
    then some "secret"
    else if key =? "risk"
    then some "WRITE"
    else if key =? "action_hash"
    then some action
    else none

abbrev no_file : StateFile
no_file = record { exists = false; symlink = false; is_file = false; content = none }

abbrev control : Control
control = record {
  site = record {
    root = "work" ∷ [];
    seen = record { is_dir = true; canonical = "/work"; dir_name = "work" };
  };
  trust_file = no_file;
  queue = no_file;
}

abbrev setting : Setting
setting = record {
  csrf_token = "secret";
  runtime = record {
    sha256 = λ t. t;
    loads = λ t. none;
    dumps = λ v. "";
    dumps_sorted = λ v. "";
    dumps_compact = λ v. "pay1";
    show = λ v. "";
    parse_int = λ t. some (pos 300);
    truncate = λ z. z;
  };
  crypto = record {
    hmac = λ key raw. "mac1";
    b64encode = λ t. t;
    b64decode = λ t. some t;
    workspace_id = λ path. "w1";
  };
  key = "k";
  now = 100;
  nonce = "ab12";
  urlsplit = λ t. some (record { hostname = "localhost"; has_userinfo = false });
  parse_form = λ t. ok form;
  locate = λ t. ok control.site;
  trust_writes = true;
  queue_locked = true;
  queue_writes = true;
}

abbrev request : Post
request = record {
  host = "localhost";
  content_length = "300";
  body = "csrf=secret";
  path = "/approve";
}

answered : (do_post setting request control).0 ≡ ok (token_page "pay1.mac1" action)
unfolding do_post act_on authorize require_loopback_host check_url strip is_empty has_infix lower
    elem string_discrete read_form body_within take_chars require_csrf form_get act approve
    issue_form parse upper ttl_of issue_token valid_action_hash all_chars is_hex_digit issue sign
    b64e rstrip_equals finish_issue Pending.remove open_queue pending_key Pending.is_hash_digit
    load_queue read_json_object requests_of shown is_value get as_fields
answered = refl

do_post-IsIssued_example : IsIssued setting request control "pay1.mac1" action
do_post-IsIssued_example = do_post-IsIssued setting request control "pay1.mac1" action answered
