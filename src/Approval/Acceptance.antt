-- ===== src/Approval/Acceptance.antt =====
-- What `ApprovalManager.validate` of src/gpthands/approval.py accepts.
use gpthands.Prelude.{
  String, true, false, some, ◌≡◌, ◌≤◌, arith, is_empty, ok, Result-cases, Option-cases, =?_refl,
  inl, inr,
}
use gpthands.Json.{ℤ, Json, obj, Fields, get, equals_int, equals_text}
use gpthands.Audit.Defs.{Runtime}
use gpthands.Risk.{RiskLevel, rank, parse}
use gpthands.Approval.Tokens.{
  Crypto, Demand, past, bound_to, level_of, int_or_zero, text_of, dict_of, split_dot, b64d,
  verified_payload, check_payload, inspect,
}

module _ (crypto : Crypto) (rt : Runtime) (key : String) where
  -- The token's two parts decode, the second is the first one's code under the key, and the first
  -- reads as the payload.
  pub record IsSigned (token : String) (payload : Json) : Type 0 where
    pub parts : String × String
    pub raw : String
    pub two_parts : split_dot token ≡ some parts
    pub decoded : b64d crypto parts.0 ≡ some raw
    pub signed : b64d crypto parts.1 ≡ some (crypto.hmac key raw)
    pub reads : rt.loads raw ≡ some payload

  pub record IsGranted (d : Demand) (token : String) (fields : Fields) : Type 0 where
    pub authentic : IsSigned token (obj fields)
    pub nonempty : is_empty token ≡ false
    pub version : equals_int (get "v" fields) 1 ≡ true
    pub workspace : equals_text (get "workspace" fields) (crypto.workspace_id d.workspace) ≡ true
    pub expiry : ℤ
    pub expires : int_or_zero rt (get "exp" fields) ≡ ok expiry
    pub unexpired : past d.now expiry ≡ false
    pub level : RiskLevel
    pub named : parse (text_of rt (get "risk" fields)) ≡ ok level
    pub covers : rank d.minimum ≤ rank level
    pub bound : bound_to d.action (get "action" fields) ≡ true
    pub has_nonce : is_empty (text_of rt (get "nonce" fields)) ≡ false

  verified_payload-IsSigned :
      (token : String) (payload : Json)
      → verified_payload crypto rt key token ≡ ok payload
      → IsSigned token payload
  unfolding verified_payload
  verified_payload-IsSigned token payload h = elim (Option-cases (split_dot token)) [
    | inl e ↦ absurd (ground arith)
    | inr (parts, e) ↦ elim (Option-cases (b64d crypto parts.0)) [
      | inl f ↦ absurd (ground arith)
      | inr (raw, f) ↦ record {
        parts = parts;
        raw = raw;
        two_parts = e;
        decoded = f;
        signed = ground arith;
        reads = ground arith;
      }
    ]
  ]

  pub IsSigned-verified_payload :
      (token : String) (payload : Json)
      → IsSigned token payload
      → verified_payload crypto rt key token ≡ ok payload
  unfolding verified_payload
  IsSigned-verified_payload token payload signed =
      ground (arith, =?_refl (crypto.hmac key signed.raw))

  check_payload-level :
      (d : Demand) (fields : Fields) (nonce : String)
      → check_payload crypto rt key d fields ≡ ok nonce
      → (expiry : ℤ) × (level : RiskLevel) × (int_or_zero rt (get "exp" fields) ≡ ok expiry)
        × (parse (text_of rt (get "risk" fields)) ≡ ok level)
  unfolding check_payload level_of
  check_payload-level d fields nonce h = elim (Result-cases (int_or_zero rt (get "exp" fields))) [
    | inl (e, f) ↦ absurd (ground arith)
    | inr (z, f) ↦ elim (Result-cases (parse (text_of rt (get "risk" fields)))) [
      | inl (e, g) ↦ absurd (ground arith)
      | inr (level, g) ↦ (z, level, f, g)
    ]
  ]

  module _ (d : Demand) (token : String) (fields : Fields) where
    inspect-payload :
        (nonce : String)
        → inspect crypto rt key d token ≡ ok (fields, nonce)
        → check_payload crypto rt key d fields ≡ ok nonce
    unfolding inspect dict_of
    inspect-payload nonce h = ground arith

    pub inspect-verified :
        (nonce : String)
        → inspect crypto rt key d token ≡ ok (fields, nonce)
        → verified_payload crypto rt key token ≡ ok (obj fields)
    unfolding inspect dict_of
    inspect-verified nonce h = ground arith

    inspect-nonempty :
        (nonce : String)
        → inspect crypto rt key d token ≡ ok (fields, nonce)
        → is_empty token ≡ false
    unfolding inspect
    inspect-nonempty nonce h = ground arith

    pub inspect-IsGranted :
        (nonce : String)
        → inspect crypto rt key d token ≡ ok (fields, nonce)
        → IsGranted d token fields × (nonce ≡ text_of rt (get "nonce" fields))
    unfolding check_payload level_of
    inspect-IsGranted nonce h =
        let checked = inspect-payload nonce h in
        let (z, level, e, g) = check_payload-level d fields nonce checked in
        (
          record {
            authentic = verified_payload-IsSigned token (obj fields) (inspect-verified nonce h);
            nonempty = inspect-nonempty nonce h;
            version = ground arith;
            workspace = ground arith;
            expiry = z;
            expires = e;
            unexpired = ground arith;
            level = level;
            named = g;
            covers = ground arith;
            bound = ground arith;
            has_nonce = ground arith;
          },
          ground arith,
        )

    pub IsGranted-inspect :
        IsGranted d token fields
        → inspect crypto rt key d token ≡ ok (fields, text_of rt (get "nonce" fields))
    unfolding inspect check_payload level_of dict_of
    IsGranted-inspect granted =
        ground (arith, IsSigned-verified_payload token (obj fields) granted.authentic)

  pub IsGranted-fields :
      (d later : Demand) (token : String) (f g : Fields)
      → IsGranted d token f
      → IsGranted later token g
      → f ≡ g
  IsGranted-fields d later token f g first second =
      let one = IsSigned-verified_payload token (obj f) first.authentic in
      let two = IsSigned-verified_payload token (obj g) second.authentic in ground (arith, one, two)
