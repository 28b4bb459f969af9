-- ===== src/Approval/Issue.antt =====
-- A token that `issue` of src/gpthands/approval.py makes, read back by `validate`.
use Prim.Native.Char.{Char, code}
use Prim.Native.Nat.{◌%◌}
use Prim.Native.String.append
use gpthands.Prelude.{
  ℕ, zero, suc, ◌+◌, ◌-◌, ◌≤◌, String, ◌<>◌, Bool, true, false, not, ◌&&◌, Option, none, some, List,
  [], ◌∷◌, ◌++◌, ◌≡◌, ◌⊎◌, inl, inr, arith, ◌==◌, refl, ap, =?_refl, string_discrete, ◌∙◌, sym,
  cons_char, all_chars, count, is_empty, elem, ok,
}
use gpthands.Json.{pos, int, text, obj, Fields, get, equals_int, equals_text}
use gpthands.Audit.Defs.{Runtime, to_int, to_str}
use gpthands.Risk.{RiskLevel, rank, name}
use gpthands.Risk.Laws.{parse-name}
use gpthands.Audit.Defs.{written_whole}
use gpthands.Approval.Defs.{
  Store, StoreIo, load_consumed, validate_used_store, read_consumed, opened, secured, with_nonce,
  written, append_nonce, consume_nonce,
}
use gpthands.Approval.OneUse.{validate-inspect}
use gpthands.Approval.Acceptance.{IsSigned, IsGranted, IsGranted-inspect}
use gpthands.Approval.Tokens.{
  Demand, past, bound_to, int_or_zero, text_of, spend, returning, payload_fields, action_fields,
  sign, issue, inspect, validate, Crypto, cons_unpadded, rstrip_equals, equals_signs, on_head,
  split_dot, b64e, b64d,
}

-- A character of what base64.urlsafe_b64encode returns, but for the padding.
unfoldable pub is_digit64 : ℕ → Bool
is_digit64 c = not (c == b'=') && not (c == b'.')

is_empty-append : (s rest : String) → is_empty (s <> ("." <> rest)) ≡ false
unfolding is_empty
is_empty-append String.[] rest = rw (append.nil ("." <> rest), append.cons _ "" rest) refl
is_empty-append (String.◌∷◌ c s) rest = rw (append.cons c s ("." <> rest)) refl

-- The operating system refuses a use of the store nothing, and writes the whole line.
pub record IsQuiet (io : StoreIo) : Type 0 where
  pub locked : io.locked ≡ true
  pub reads : io.reads ≡ true
  pub opens : io.opens ≡ true
  pub stats : io.stats ≡ true
  pub secures : io.secures ≡ true
  pub whole : io.writes ≡ written_whole
  pub syncs : io.syncs ≡ true

-- base64 gives back what it took, and writes a multiple of four digits, the last at most two of
-- which are equals signs.
pub record IsBase64 (crypto : Crypto) (raw : String) : Type 0 where
  pub body : String
  pub padding : ℕ
  pub encoded : crypto.b64encode raw ≡ body <> equals_signs padding
  pub digits : all_chars is_digit64 body ≡ true
  pub few : padding ≤ 2
  pub whole : (count body + padding) % 4 ≡ 0
  pub decodes : crypto.b64decode (crypto.b64encode raw) ≡ some raw

rstrip_equals-equals_signs : (n : ℕ) → rstrip_equals (equals_signs n) ≡ ""
unfolding rstrip_equals equals_signs cons_unpadded
rstrip_equals-equals_signs zero = refl
rstrip_equals-equals_signs (suc n) =
    ap rstrip_equals (append.cons _ "" (equals_signs n))
    ∙ ap (cons_unpadded "=")
        (ap rstrip_equals (append.nil (equals_signs n)) ∙ rstrip_equals-equals_signs n)

cons_unpadded-digit :
    (c : Char) (s : String) → is_digit64 (code c) ≡ true → cons_unpadded c s ≡ cons_char c s
unfolding cons_unpadded is_digit64
cons_unpadded-digit c String.[] h = ground arith
cons_unpadded-digit c (String.◌∷◌ d s) h = refl

rstrip_equals-digits :
    (s : String) (n : ℕ) → all_chars is_digit64 s ≡ true → rstrip_equals (s <> equals_signs n) ≡ s
unfolding rstrip_equals all_chars
rstrip_equals-digits String.[] n h =
    ap rstrip_equals (append.nil (equals_signs n)) ∙ rstrip_equals-equals_signs n
rstrip_equals-digits (String.◌∷◌ c s) n h =
    ap rstrip_equals (append.cons c s (equals_signs n))
    ∙ ap (cons_unpadded c) (rstrip_equals-digits s n (ground arith))
    ∙ cons_unpadded-digit c s (ground arith)

split_dot-digits :
    (s rest : String)
    → all_chars is_digit64 s ≡ true
    → split_dot (s <> ("." <> rest)) ≡ some (s, rest)
unfolding split_dot on_head all_chars is_digit64
split_dot-digits String.[] rest h =
    rw (append.nil ("." <> rest), append.cons _ "" rest, append.nil rest) refl
split_dot-digits (String.◌∷◌ c s) rest h =
    rw (append.cons c s ("." <> rest), split_dot-digits s rest (ground arith)) (ground arith)

module _ (crypto : Crypto) (raw : String) (base64 : IsBase64 crypto raw) where
  b64e-body : b64e crypto raw ≡ base64.body
  unfolding b64e
  b64e-body =
      ap rstrip_equals base64.encoded
      ∙ rstrip_equals-digits base64.body base64.padding base64.digits

  pad_of : (n k : ℕ) → k ≤ 2 → (n + k) % 4 ≡ 0 → (4 - n % 4) % 4 ≡ k
  pad_of n k few whole = omega arith

  split_dot-b64e :
      (rest : String) → split_dot (b64e crypto raw <> ("." <> rest)) ≡ some (b64e crypto raw, rest)
  split_dot-b64e rest = rw b64e-body (split_dot-digits base64.body rest base64.digits)

  pub b64d-b64e : b64d crypto (b64e crypto raw) ≡ some raw
  unfolding b64d
  b64d-b64e = rw b64e-body (
      ap (λ k. crypto.b64decode (base64.body <> equals_signs k))
        (pad_of (count base64.body) base64.padding base64.few base64.whole)
      ∙ ap crypto.b64decode (sym base64.encoded)
      ∙ base64.decodes)

module _ (crypto : Crypto) (workspace : List String) (risk : RiskLevel) (expiry : ℕ)
    (nonce : String) (action : Option String) where
  abbrev payload : Fields
  payload = payload_fields crypto workspace risk expiry nonce action

  payload_fields-get :
      (get "v" payload ≡ some (int (pos 1)))
      × (get "workspace" payload ≡ some (text (crypto.workspace_id workspace)))
      × (get "risk" payload ≡ some (text (name risk)))
      × (get "exp" payload ≡ some (int (pos expiry)))
      × (get "nonce" payload ≡ some (text nonce))
  unfolding payload_fields get string_discrete
  payload_fields-get = (refl, refl, refl, refl, refl)

  payload_fields-action :
      (hash : String)
      → is_empty hash ≡ false
      → action ≡ some hash
      → get "action" payload ≡ some (text hash)
  unfolding payload_fields get string_discrete action_fields
  payload_fields-action hash full e = rw e (ground arith)

  -- The call asks for no more than the token grants.
  pub record IsCovered (d : Demand) : Type 0 where
    pub unexpired : d.now ≤ expiry
    pub workspace_same : d.workspace ≡ workspace
    pub risk_covers : rank d.minimum ≤ rank risk
    pub action_same :
        (d.action ≡ none)
        ⊎ ((hash : String) × (is_empty hash ≡ false)
            × (d.action ≡ some hash)
            × (action ≡ some hash))

  bound_to-payload : (d : Demand) → IsCovered d → bound_to d.action (get "action" payload) ≡ true
  unfolding bound_to equals_text
  bound_to-payload d covered = elim covered.action_same [
    | inl e ↦ ground arith
    | inr (hash, full, e, f) ↦ ground (arith, payload_fields-action hash full f, =?_refl hash)
  ]

  module _ (rt : Runtime) (key : String) where
    abbrev raw_payload : String
    raw_payload = rt.dumps_compact (obj payload)

    -- The two texts of the token pass through base64, and the payload is read as a dict with the
    -- payload's values.
    pub record IsLegible (fields : Fields) : Type 0 where
      pub base64 : IsBase64 crypto raw_payload
      pub base64_code : IsBase64 crypto (crypto.hmac key raw_payload)
      pub reads : rt.loads raw_payload ≡ some (obj fields)
      pub values : (k : String) → get k fields ≡ get k payload

    module _ (fields : Fields) (legible : IsLegible fields) where
      sign-IsSigned : IsSigned crypto rt key (sign crypto rt key (obj payload)) (obj fields)
      unfolding sign
      sign-IsSigned = record {
        parts = (b64e crypto raw_payload, b64e crypto (crypto.hmac key raw_payload));
        raw = raw_payload;
        two_parts = split_dot-b64e crypto raw_payload legible.base64 _;
        decoded = b64d-b64e crypto raw_payload legible.base64;
        signed = b64d-b64e crypto (crypto.hmac key raw_payload) legible.base64_code;
        reads = legible.reads;
      }

      sign-IsGranted :
          (d : Demand)
          → IsCovered d
          → is_empty nonce ≡ false
          → IsGranted crypto rt key d (sign crypto rt key (obj payload)) fields
      unfolding int_or_zero text_of to_int to_str past equals_int equals_text
      sign-IsGranted d covered full =
          let (v, w, r, e, n) = payload_fields-get in
          record {
            authentic = sign-IsSigned;
            nonempty = unfold sign in (is_empty-append (b64e crypto raw_payload) _);
            version = rw (legible.values "v", v) refl;
            workspace = rw (legible.values "workspace", w, covered.workspace_same) (=?_refl _);
            expiry = pos expiry;
            expires = rw (legible.values "exp", e) refl;
            unexpired = ground (arith, covered.unexpired);
            level = risk;
            named = rw (legible.values "risk", r) (parse-name risk).0;
            covers = covered.risk_covers;
            bound = rw (legible.values "action") (bound_to-payload d covered);
            has_nonce = rw (legible.values "nonce", n) full;
          }

      sign-issue :
          (now ttl : ℕ)
          → now + ttl ≡ expiry
          → 1 ≤ ttl
          → ttl ≤ 3600
          → issue crypto rt key now nonce workspace risk ttl action
            ≡ ok (sign crypto rt key (obj payload))
      unfolding issue
      sign-issue now ttl e low high = rw (sym e) (ground arith)

      inspect-nonce :
          (d : Demand)
          → IsCovered d
          → is_empty nonce ≡ false
          → inspect crypto rt key d (sign crypto rt key (obj payload)) ≡ ok (fields, nonce)
      unfolding text_of to_str
      inspect-nonce d covered full =
          IsGranted-inspect crypto rt key d _ fields (sign-IsGranted d covered full)
          ∙ ap (λ v. ok (fields, text_of rt v)) (legible.values "nonce" ∙ payload_fields-get.4)

      spend-fresh :
          (io : StoreIo) (d : Demand) (s : Store) (current : List String)
          → d.consume ≡ true
          → load_consumed s.file ≡ ok current
          → elem nonce current ≡ false
          → IsQuiet io
          → spend io d.consume nonce s ≡ (
            ok tt,
            record {
              file = with_nonce written_whole nonce (secured (opened s.file));
              consumed = current ++ nonce ∷ [];
            },
          )
      unfolding consume_nonce append_nonce written read_consumed load_consumed validate_used_store
          spend
      spend-fresh io d s current consuming readable fresh quiet = rw consuming (
          ground (
            arith, quiet.locked, quiet.reads, quiet.opens, quiet.stats, quiet.secures, quiet.whole,
            quiet.syncs,
          ))

      -- A token that `issue` makes with a lifetime of 1 to 3600 seconds and a nonce that is not in the
      -- store yet is accepted where no more is asked than it grants, in a store that can be read,
      -- with the lock taken and the operating system refusing nothing and writing the whole
      -- line; what is returned reads as the payload, and a consuming call writes
      -- the nonce into the store. The token's texts are assumed to pass through base64 and JSON.
      pub issue-validate :
          (now ttl : ℕ) (d : Demand) (s : Store) (current : List String)
          → now + ttl ≡ expiry
          → 1 ≤ ttl
          → ttl ≤ 3600
          → IsCovered d
          → is_empty nonce ≡ false
          → d.consume ≡ true
          → load_consumed s.file ≡ ok current
          → elem nonce current ≡ false
          → (io : StoreIo) → IsQuiet io
          → (token : String) × (issue crypto rt key now nonce workspace risk ttl action ≡ ok token)
            × (validate crypto rt key io d token s ≡ (
              ok fields,
              record {
                file = with_nonce written_whole nonce (secured (opened s.file));
                consumed = current ++ nonce ∷ [];
              },
            ))
      unfolding returning
      issue-validate now ttl d s current e low high covered full consuming readable fresh io quiet =
          (
            sign crypto rt key (obj payload),
            sign-issue now ttl e low high,
            validate-inspect crypto rt key (sign crypto rt key (obj payload)) io d s fields nonce
                  (inspect-nonce d covered full)
                ∙ ap (returning fields) (spend-fresh io d s current consuming readable fresh quiet),
          )
