-- ===== src/Approval/Tokens.antt =====
-- The tokens of src/gpthands/approval.py: signing, and `validate` with all its tests.
use Prim.Native.Char.{Char, code}
use Prim.Native.Nat.{◌%◌}
use gpthands.Prelude.{
  ℕ, zero, suc, ◌+◌, ◌-◌, String, ◌<>◌, Bool, true, false, not, ◌&&◌, Option, none, some, List,
  ◌==◌, ◌=?◌, leb, ltb, if◌then◌else◌, is_empty, cons_char, count, ok, err, raise, approval_error,
  attribute_error, value_error, type_error, ◌>>=◌, ◌>>◌,
}
use gpthands.Prelude.Errors.{Result, require}
use gpthands.Json.{
  ℤ, pos, negsuc, Json, int, text, obj, Fields, end, field, get, equals_int, equals_text,
}
use gpthands.Audit.Defs.{Runtime, to_int, to_str}
use gpthands.Risk.{RiskLevel, rank, name, parse}
use gpthands.Approval.Defs.{Store, StoreIo, consume_nonce, is_consumed}

-- What the code takes from hashlib, hmac and base64, on byte strings held as texts.
pub record Crypto : Type 0 where
  pub hmac : String → String → String
  pub b64encode : String → String
  pub b64decode : String → Option String
  pub workspace_id : List String → String

unfoldable pub cons_unpadded : Char → String → String
cons_unpadded c String.[] = if code c == b'=' then "" else cons_char c ""
cons_unpadded c (String.◌∷◌ d s) = cons_char c (cons_char d s)

-- text.rstrip("=")
unfoldable pub rstrip_equals : String → String
unfolding cons_unpadded
rstrip_equals String.[] = ""
rstrip_equals (String.◌∷◌ c s) = cons_unpadded c (rstrip_equals s)

unfoldable pub equals_signs : ℕ → String
equals_signs zero = ""
equals_signs (suc n) = "=" <> equals_signs n

unfoldable pub on_head : Char → Option (String × String) → Option (String × String)
on_head c none = none
on_head c (some (head, rest)) = some (cons_char c head, rest)

-- token.split(".", 1)
unfoldable pub split_dot : String → Option (String × String)
unfolding on_head
split_dot String.[] = none
split_dot (String.◌∷◌ c s) =
    let rest = split_dot s in if code c == b'.' then some ("", s) else on_head c rest

-- What `validate` takes besides the token, and the time in seconds.
pub record Demand : Type 0 where
  pub now : ℕ
  pub workspace : List String
  pub minimum : RiskLevel
  pub action : Option String
  pub consume : Bool

unfoldable pub unless_used : Result Bool × Store → Result (Unit {0}) × Store
unless_used (err e, s) = (err e, s)
unless_used (ok true, s) = (raise approval_error "approval token was already used", s)
unless_used (ok false, s) = (ok tt, s)

-- The last step of `validate`, which uses the nonce up or only looks it up.
unfoldable pub spend : StoreIo → Bool → String → Store → Result (Unit {0}) × Store
spend io true nonce s = consume_nonce io nonce s
spend io false nonce s = unless_used (is_consumed io nonce s)

-- `return payload`, where no exception was raised
unfoldable pub returning : Fields → Result (Unit {0}) × Store → Result Fields × Store
returning payload (err e, s) = (err e, s)
returning payload (ok done, s) = (ok payload, s)

-- payload.get raises on what is no dict
unfoldable pub dict_of : Json → Result Fields
dict_of (obj fields) = ok fields
dict_of _ = raise attribute_error "object has no attribute 'get'"

-- expiry < now
unfoldable pub past : ℕ → ℤ → Bool
past now (pos expiry) = ltb expiry now
past now (negsuc expiry) = true

-- action_hash is None or payload.get("action") == action_hash
unfoldable pub bound_to : Option String → Option Json → Bool
bound_to none action = true
bound_to (some hash) action = equals_text action hash

unfoldable pub level_of : String → Result RiskLevel
level_of word = elim (parse word) [
  | ok level ↦ ok level
  | err e ↦ raise approval_error "approval token risk is invalid"
]

module _ (rt : Runtime) where
  -- int(payload.get("exp", 0))
  unfoldable pub int_or_zero : Option Json → Result ℤ
  int_or_zero none = ok (pos 0)
  int_or_zero (some (text t)) = elim (rt.parse_int t) [
    | none ↦ raise value_error "invalid literal for int()"
    | some z ↦ ok z
  ]
  int_or_zero (some v) = elim (to_int rt (some v)) [
    | none ↦ raise type_error "int() argument must be a string or a number"
    | some z ↦ ok z
  ]

  -- str(payload.get(key, ""))
  unfoldable pub text_of : Option Json → String
  text_of none = ""
  text_of (some v) = to_str rt (some v)

unfoldable pub action_fields : Option String → Fields
action_fields none = end
action_fields (some hash) = if is_empty hash then end else field "action" (text hash) end

module _ (crypto : Crypto) where
  -- The payload of a new token.
  unfoldable pub payload_fields : List String → RiskLevel → ℕ → String → Option String → Fields
  payload_fields workspace risk expiry nonce action = field "v" (int (pos 1)) (
      field "workspace" (text (crypto.workspace_id workspace)) (
        field "risk" (text (name risk))
          (field "exp" (int (pos expiry)) (field "nonce" (text nonce) (action_fields action)))))

  -- _b64e
  unfoldable pub b64e : String → String
  b64e s = rstrip_equals (crypto.b64encode s)

  -- _b64d: the padding is -len(data) % 4 signs
  unfoldable pub b64d : String → Option String
  b64d s = crypto.b64decode (s <> equals_signs ((4 - count s % 4) % 4))

  module _ (rt : Runtime) (key : String) where
    unfoldable pub sign : Json → String
    sign payload =
        let raw = rt.dumps_compact payload in b64e raw <> ("." <> b64e (crypto.hmac key raw))

    -- ApprovalManager.issue, at the time `now` in seconds and with a fresh nonce
    unfoldable pub issue : ℕ → String → List String → RiskLevel → ℕ → Option String → Result String
    issue now nonce workspace risk ttl_seconds action = do
      require (leb 1 ttl_seconds && leb ttl_seconds 3600) approval_error
          "approval ttl must be between 1 and 3600 seconds"
      ok (sign (obj (payload_fields workspace risk (now + ttl_seconds) nonce action)))

    -- The first half of `validate`: the payload of a token that is signed with the key.
    unfoldable pub verified_payload : String → Result Json
    verified_payload token = elim (split_dot token) [
      | none ↦ raise approval_error "approval token is malformed"
      | some (payload_part, sig_part) ↦ elim (b64d payload_part) [
        | none ↦ raise approval_error "approval token is malformed"
        | some raw ↦ elim (b64d sig_part) [
          | none ↦ raise approval_error "approval token is malformed"
          | some supplied ↦
              if not (supplied =? crypto.hmac key raw)
              then raise approval_error "approval token signature is invalid"
              else elim (rt.loads raw) [
                | none ↦ raise approval_error "approval token is malformed"
                | some payload ↦ ok payload
              ]
        ]
      ]
    ]

    -- The tests of `validate` on the payload, in their order, up to the nonce it returns.
    unfoldable pub check_payload : Demand → Fields → Result String
    check_payload d payload = do
      require (equals_int (get "v" payload) 1) approval_error
          "approval token version is unsupported"
      require (equals_text (get "workspace" payload) (crypto.workspace_id d.workspace))
          approval_error "approval token belongs to a different workspace"
      expiry ← int_or_zero rt (get "exp" payload)
      require (not (past d.now expiry)) approval_error "approval token has expired"
      level ← level_of (text_of rt (get "risk" payload))
      require (leb (rank d.minimum) (rank level)) approval_error
          "approval token does not cover this risk level"
      require (bound_to d.action (get "action" payload)) approval_error
          "approval token is not bound to this exact action"
      require (not (is_empty (text_of rt (get "nonce" payload)))) approval_error
          "approval token nonce is invalid"
      ok (text_of rt (get "nonce" payload))

    unfoldable pub inspect : Demand → String → Result (Fields × String)
    inspect d token = do
      require (not (is_empty token)) approval_error "human approval token required"
      payload ← verified_payload token
      fields ← dict_of payload
      nonce ← check_payload d fields
      ok (fields, nonce)

    -- ApprovalManager.validate
    unfoldable pub validate : StoreIo → Demand → String → Store → Result Fields × Store
    validate io d token s = elim (inspect d token) [
      | err e ↦ (err e, s)
      | ok (fields, nonce) ↦ returning fields (spend io d.consume nonce s)
    ]
