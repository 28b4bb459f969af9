-- ===== src/Tunnel/Environment.antt =====
-- What of the environment reaches the tunnel client of src/gpthands/tunnel.py.
use mathlib.Core.Path.{subst}
use gpthands.Prelude.{
  String, true, Option, none, some, [], ◌∷◌, ◌≡◌, inl, inr, refl, arith, elem, ◌=?◌, is_empty,
  upper, ok, All, Bool-cases, Result-cases,
}
use gpthands.Credentials.{Platform, get_credential}
use gpthands.Tunnel.Defs.{
  Environ, tunnel_env_allowlist, sanitized_runtime_env, set_variable, as_tunnel_error, runtime_env,
}

-- The pairs of a list that are in another.
pub data Holds : String × String → Environ → Type 0 where
  here : (item : String × String) (items : Environ) → Holds item (item ∷ items)
  there :
      (item other : String × String) (items : Environ)
      → Holds item items
      → Holds item (other ∷ items)

module _ (environ : Environ) (secret : Option String) where
  -- A variable that may be passed on, with the value it has, or the credential.
  pub data IsPassed (item : String × String) : Type 0 where
    inherited : elem (upper item.0) tunnel_env_allowlist ≡ true → Holds item environ → IsPassed item
    credential : item.0 ≡ "CONTROL_PLANE_API_KEY" → secret ≡ some item.1 → IsPassed item

  sanitized-IsPassed :
      (part : Environ)
      → ((item : String × String) → Holds item part → Holds item environ)
      → All IsPassed (sanitized_runtime_env part)
  unfolding sanitized_runtime_env
  sanitized-IsPassed [] within = tt
  sanitized-IsPassed (item ∷ items) within =
      let rest = sanitized-IsPassed items (λ other h. within other (there other item items h)) in
      elim (Bool-cases (elem (upper item.0) tunnel_env_allowlist)) [
        | inl listed ↦ rw listed (inherited listed (within item (here item items)), rest)
        | inr dropped ↦ rw dropped rest
      ]

  set_variable-IsPassed :
      (value : String) (items : Environ)
      → secret ≡ some value
      → All IsPassed items
      → All IsPassed (set_variable "CONTROL_PLANE_API_KEY" value items)
  unfolding set_variable
  set_variable-IsPassed value [] h all = (credential refl h, tt)
  set_variable-IsPassed value (item ∷ items) h (passed, all) =
      elim (Bool-cases (item.0 =? "CONTROL_PLANE_API_KEY")) [
        | inl same ↦ rw same (credential refl h, all)
        | inr other ↦ rw other (passed, set_variable-IsPassed value items h all)
      ]

  -- Every variable that the tunnel client is given is one of the allow list with the value it has in the
  -- server's own environment, or the control plane's key with the credential that was asked for: no other
  -- variable is passed on.
  pub runtime_env-IsPassed :
      (p : Platform) (name : Option String) (env : Environ)
      → runtime_env p environ name ≡ ok (env, secret)
      → All IsPassed env
  unfolding runtime_env
  runtime_env-IsPassed p none env h =
      let same : sanitized_runtime_env environ ≡ env = ground arith in
      subst (All IsPassed) same (sanitized-IsPassed environ (λ item held. held))
  runtime_env-IsPassed p (some name) env h = elim (Bool-cases (is_empty name)) [
    | inl blank ↦
        let same : sanitized_runtime_env environ ≡ env = ground arith in
        subst (All IsPassed) same (sanitized-IsPassed environ (λ item held. held))
    | inr named ↦ elim (Result-cases (as_tunnel_error (get_credential p name))) [
      | inl (x, fails) ↦ absurd (ground arith)
      | inr (value, found) ↦
          let same : set_variable "CONTROL_PLANE_API_KEY" value (sanitized_runtime_env environ)
              ≡ env =
            ground arith in
          let kept : secret ≡ some value = ground arith in
          subst (All IsPassed) same (
            set_variable-IsPassed value (sanitized_runtime_env environ) kept
              (sanitized-IsPassed environ (λ item held. held)))
    ]
  ]
