-- ===== src/Control/Defs.antt =====
-- `do_POST` of src/gpthands/control_ui.py and what it calls. The page that is shown is given by its kind
-- and what it depends on. A call reads the clock once.
use gpthands.Prelude.{
  ℕ, String, Bool, true, false, not, ◌&&◌, ◌||◌, Option, none, some, List, [], ◌∷◌, ◌==◌, ◌=?◌, leb,
  count, all_chars, if◌then◌else◌, is_empty, strip, lower, elem, has_infix, take_chars, value_error,
  control_error, ok, err, raise, ◌>>=◌, ◌>>◌,
}
use gpthands.Prelude.Errors.{Kind, Result, error, require}
use gpthands.Json.{ℤ, pos, negsuc, Fields, get, equals_text}
use gpthands.State.{StateFile}
use gpthands.Audit.Defs.{Runtime}
use gpthands.Policy.Defs.{FilePath}
use gpthands.Policy.Paths.{path_text}
use gpthands.Risk.{RiskLevel, parse}
use gpthands.Approval.Tokens.{Crypto, issue, text_of}
use gpthands.Trust.Defs as Trust
use gpthands.Pending.Defs as Pending

-- A resolved workspace, as a path and as WorkspaceTrustStore sees it.
pub record Site : Type 0 where
  pub root : FilePath
  pub seen : Trust.Workspace

-- The server's fields that change, and its files.
pub record Control : Type 0 where
  pub site : Site
  pub trust_file : StateFile
  pub queue : StateFile

-- urllib.parse.urlsplit of a host
pub record Url : Type 0 where
  pub hostname : String
  pub has_userinfo : Bool

-- A POST request: the headers, the bytes that follow, and the path.
pub record Post : Type 0 where
  pub host : String
  pub content_length : String
  pub body : String
  pub path : String

-- The libraries, the key, the clock in seconds, a fresh nonce, and the answers of the file system. A form
-- is `parse_qs` with the last value of each key, or its ValueError, and `urlsplit` is none where
-- it or the port raises one.
pub record Setting : Type 0 where
  pub csrf_token : String
  pub runtime : Runtime
  pub crypto : Crypto
  pub key : String
  pub now : ℕ
  pub nonce : String
  pub urlsplit : String → Option Url
  pub parse_form : String → Result (String → Option String)
  pub locate : String → Result Site
  pub trust_writes : Bool
  pub queue_locked : Bool
  pub queue_writes : Bool

pub data Response : Type 0 where
  redirect : Response
  not_found : Response
  token_page : String → String → Response
  refused : String → Response

abbrev pub Form : Type 0
Form = String → Option String

-- form.get(key, default)
unfoldable pub form_get : Form → String → String → String
form_get form key default = elim (form key) [ none ↦ default | some v ↦ v ]

unfoldable pub is_hex_digit : ℕ → Bool
is_hex_digit c = (leb b'0' c && leb c b'9') || (leb b'a' c && leb c b'f')

-- _valid_action_hash
unfoldable pub valid_action_hash : String → Bool
valid_action_hash action_hash = count action_hash == 64 && all_chars is_hex_digit action_hash

-- [row for row in rows if row.get("action_hash") == action_hash]
unfoldable pub matching : String → List (ℤ × Fields) → List Fields
matching action_hash [] = []
matching action_hash (row ∷ rows) =
    let rest = matching action_hash rows in
    if equals_text (get "action_hash" row.1) action_hash then row.1 ∷ rest else rest

unfoldable pub only : List Fields → Result Fields
only (row ∷ []) = ok row
only _ = raise control_error "pending action no longer exists for this workspace"

-- except (ValueError, ControlUIError)
unfoldable pub is_refusal : Kind → Bool
is_refusal value_error = true
is_refusal control_error = true
is_refusal _ = false

unfoldable pub shown : Result Response × Control → Result Response × Control
shown (err (error kind message), c) =
    if is_refusal kind then (ok (refused message), c) else (err (error kind message), c)
shown (ok response, c) = (ok response, c)

module _ (s : Setting) where
  unfoldable pub check_url : Option Url → Result (Unit {0})
  check_url none = raise control_error "invalid local UI Host header"
  check_url (some url) = do
    require (not url.has_userinfo) control_error "invalid local UI Host header"
    require (elem (lower url.hostname) ("127.0.0.1" ∷ "localhost" ∷ [])) control_error
        "local UI rejected non-loopback Host header"

  -- _require_loopback_host
  unfoldable pub require_loopback_host : Post → Result (Unit {0})
  require_loopback_host r = do
    require
        (not (
          is_empty (strip r.host)
          || has_infix "@" (strip r.host)
          || has_infix "\r" (strip r.host)
          || has_infix "\n" (strip r.host)))
        control_error "invalid local UI Host header"
    check_url (s.urlsplit (strip r.host))

  unfoldable pub body_within : Option ℤ → String → Result String
  body_within none body = raise control_error "invalid content length"
  body_within (some (negsuc n)) body = raise control_error "request body too large"
  body_within (some (pos n)) body = do
    require (leb n 8192) control_error "request body too large"
    ok (take_chars n body)

  -- _form
  unfoldable pub read_form : Post → Result Form
  read_form r = do raw ← body_within (s.runtime.parse_int r.content_length) r.body; s.parse_form raw

  -- _require_csrf
  unfoldable pub require_csrf : Form → Result (Unit {0})
  require_csrf form =
      require (form_get form "csrf" "" =? s.csrf_token) control_error
        "invalid local UI authorization token"

  unfoldable pub place_of : Site → Pending.Place
  place_of site = record { path = path_text site.root; id = s.crypto.workspace_id site.root }

  -- A number of seconds as `issue` takes it, which refuses 0 and all below alike.
  unfoldable pub ttl_of : Option ℤ → Result ℕ
  ttl_of none = raise value_error "invalid literal for int()"
  ttl_of (some (pos n)) = ok n
  ttl_of (some (negsuc n)) = ok 0

  -- _issue_token
  unfoldable pub issue_token : Site → RiskLevel → String → ℕ → Result String
  issue_token site risk action_hash ttl = do
    require (valid_action_hash action_hash) control_error
        "action hash must be 64 lowercase hexadecimal characters"
    issue s.crypto s.runtime s.key s.now s.nonce site.root risk ttl (some action_hash)

  unfoldable pub issue_form : Form → Site → String → String → Result String
  issue_form form site risk_word action_hash = do
    risk ← parse risk_word
    ttl ← ttl_of (s.runtime.parse_int (form_get form "seconds" "300"))
    issue_token site risk action_hash ttl

  -- pending_store.remove and the page of the token
  unfoldable pub finish_issue : String → Result String → Control → Result Response × Control
  finish_issue action_hash (err e) c = (err e, c)
  finish_issue action_hash (ok token) c =
      let removed =
        Pending.remove s.queue_locked s.queue_writes (place_of c.site) action_hash c.queue in
      ((do existed ← removed.0; ok (token_page token action_hash)), record c { queue = removed.1 })

  -- /approve
  unfoldable pub approve : Form → Control → Result Response × Control
  approve form c =
      let action_hash = strip (form_get form "action_hash" "") in
      finish_issue action_hash (issue_form form c.site (form_get form "risk" "") action_hash) c

  -- The token for the one row that waits under the hash.
  unfoldable pub issue_pending : Form → Site → String → Result (List (ℤ × Fields)) → Result String
  issue_pending form site action_hash listed = do
    rows ← listed
    row ← only (matching action_hash rows)
    issue_form form site (text_of s.runtime (get "risk" row)) action_hash

  -- /approve-pending
  unfoldable pub approve_pending : Form → Control → Result Response × Control
  approve_pending form c =
      let action_hash = strip (form_get form "action_hash" "") in
      let listed =
        Pending.list_for_workspace s.runtime s.queue_locked s.queue_writes (place_of c.site) 3600
          s.now c.queue in
      finish_issue action_hash (issue_pending form c.site action_hash listed.0)
        (record c { queue = listed.1 })

  -- switch_workspace
  unfoldable pub switch_workspace : String → Control → Result Site
  switch_workspace candidate c = do
    site ← s.locate candidate
    require site.seen.is_dir control_error "workspace switch target must be a directory"
    trusted ← Trust.is_trusted s.runtime.sha256 site.seen c.trust_file
    require trusted control_error "workspace switch target is not explicitly trusted"
    ok site

  unfoldable pub redirected {ℓ} : {A : Type ℓ} → Result A → Result Response
  redirected (err e) = err e
  redirected (ok done) = ok redirect

  unfoldable pub at_site : Result Site → Control → Result Response × Control
  at_site (err e) c = (err e, c)
  at_site (ok site) c = (ok redirect, record c { site = site })

  -- The choice by the path of the request.
  unfoldable pub act : String → Form → Control → Result Response × Control
  act path form c =
      let trusted =
        Trust.trust s.runtime.sha256 s.trust_writes c.site.seen s.now none c.trust_file in
      let untrusted = Trust.untrust s.runtime.sha256 s.trust_writes c.site.seen c.trust_file in
      let switched = switch_workspace (form_get form "workspace" "") c in
      if path =? "/trust"
      then (redirected trusted.0, record c { trust_file = trusted.1 })
      else if path =? "/untrust"
      then (redirected untrusted.0, record c { trust_file = untrusted.1 })
      else if path =? "/switch"
      then at_site switched c
      else if path =? "/approve-pending"
      then approve_pending form c
      else if path =? "/approve"
      then approve form c
      else (ok not_found, c)

  unfoldable pub authorize : Post → Result Form
  authorize r = do require_loopback_host r; form ← read_form r; require_csrf form; ok form

  unfoldable pub act_on : Result Form → String → Control → Result Response × Control
  act_on (err e) path c = (err e, c)
  act_on (ok form) path c = act path form c

  -- do_POST
  unfoldable pub do_post : Post → Control → Result Response × Control
  do_post r c = shown (act_on (authorize r) r.path c)
