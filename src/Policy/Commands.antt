-- ===== src/Policy/Commands.antt =====
-- `Policy.validate_command` of src/gpthands/policy.py.
use gpthands.Prelude.{
  String, ◌<>◌, true, not, ◌||◌, List, [], ◌∷◌, ◌≤◌, ◌≡◌, ◌↔◌, arith, all, is_empty, elem, ◌=?◌,
  policy_error, ok, raise, ◌>>◌,
}
use gpthands.Prelude.Errors.{Result, require}
use gpthands.Json.{ℤ}
use gpthands.Risk.{RiskLevel, rank, path_name, command_requires_network, classify_command}
use gpthands.Risk.Laws.{rank-classify_command}
use gpthands.Policy.Defs.{Policy, allow_process, allow_network_commands, live}

module _ (p : Policy) (now : ℤ) where
  -- The tests on the words of a command, each of which is a text as the tool's schema has it.
  unfoldable pub check_words : List String → Result (Unit {0})
  check_words [] = raise policy_error "command must be a non-empty string array"
  check_words (program ∷ args) = do
    require (all (λ x. not (is_empty x)) (program ∷ args)) policy_error
        "command must be a non-empty string array"
    require (path_name program =? program) policy_error
        "command executable must be a bare allowlisted name; paths are not allowed"
    require (elem program p.allowed_commands) policy_error
        ("command is not allowlisted: " <> program)
    require (not (command_requires_network (program ∷ args)) || allow_network_commands p now)
        policy_error "network capability is disabled or its lease expired"

  unfoldable pub validate_command : List String → Result (List String × RiskLevel)
  validate_command argv = do
    require (allow_process p now) policy_error "process capability is disabled or its lease expired"
    check_words argv
    ok (argv, classify_command argv)

-- What an accepted command satisfies.
pub record IsAccepted (p : Policy) (now : ℤ) (program : String) (args : List String) : Type 0 where
  pub process : p.process_enabled ≡ true
  pub process_live : live now p.process_lease_until ≡ true
  pub words : all (λ x. not (is_empty x)) (program ∷ args) ≡ true
  pub bare : path_name program ≡ program
  pub allowed : elem program p.allowed_commands ≡ true
  pub network :
      command_requires_network (program ∷ args) ≡ true
      → (p.network_enabled ≡ true) × (live now p.network_lease_until ≡ true)

module _ (p : Policy) (now : ℤ) (program : String) (args : List String) where
  -- A command passes validation exactly where the process lease is live, no word is empty, the
  -- program is a bare name on the allow list, and the network lease is live if the command asks for
  -- the network; what is returned is the command itself with its level.
  pub validate_command_iff :
      (validate_command p now (program ∷ args)
        ≡ ok (program ∷ args, classify_command (program ∷ args)))
      ↔ IsAccepted p now program args
  unfolding validate_command check_words allow_process allow_network_commands
  validate_command_iff = (λ h. ground arith, λ h. ground arith)

  -- Whatever the policy, a command that passes validation ranks EXEC or above, and NETWORK or above
  -- if it asks for the network, and its level is the one returned.
  pub validate_command-rank :
      (argv : List String) (r : RiskLevel)
      → validate_command p now (program ∷ args) ≡ ok (argv, r)
      → (argv ≡ program ∷ args)
        × (30 ≤ rank r)
        × (command_requires_network argv ≡ true
            → (40 ≤ rank r) × (allow_network_commands p now ≡ true))
  unfolding validate_command check_words
  validate_command-rank argv r h = ground (arith, rank-classify_command (program ∷ args))
