-- ===== src/Server/Approve.antt =====
-- `_require_approval` of src/gpthands/server.py and of V04GPTHandsServer in src/gpthands/ux_server.py.
use gpthands.Prelude.{
  String, Bool, true, false, not, ◌&&◌, Option, none, some, if◌then◌else◌, value_error, lock_error,
  ok, err, raise, ◌>>=◌,
}
use gpthands.Prelude.Errors.{Result}
use gpthands.Json.{Json, null, text}
use gpthands.Policy.Defs.{approval_required}
use gpthands.Risk.{RiskLevel, name}
use gpthands.Approval.Tokens.{Demand, validate}
use gpthands.Pending.Defs as Pending
use gpthands.Server.World.{World, Surroundings, then_do, place}

-- args.get("approval_token") is None
unfoldable pub is_missing : Option Json → Bool
is_missing none = true
is_missing (some null) = true
is_missing (some v) = false

-- The token as `validate` takes it, which treats None like the empty text.
unfoldable pub token_text : Option Json → Result String
token_text none = ok ""
token_text (some null) = ok ""
token_text (some (text t)) = ok t
token_text (some v) = raise value_error "approval_token must be a string"

module _ (s : Surroundings) where
  -- _pending_add: an exception of the queue is swallowed, one of its constructor is not.
  unfoldable pub pending_add : RiskLevel → String → World → Result (Unit {0}) × World
  pending_add risk hash w =
      if not s.queue_opens then (raise lock_error "lock path must be a regular file", w) else (
        ok tt,
        record w {
          queue =
              (Pending.add s.runtime s.queue_locked s.queue_writes (place s) (name risk) hash
                s.seconds w.queue).1;
        },
      )

  -- _pending_remove
  unfoldable pub pending_remove : String → World → Result (Unit {0}) × World
  pending_remove hash w =
      if not s.queue_opens then (raise lock_error "lock path must be a regular file", w) else (
        ok tt,
        record w {
          queue = (Pending.remove s.queue_locked s.queue_writes (place s) hash w.queue).1;
        },
      )

  unfoldable pub demand : RiskLevel → String → Demand
  demand risk hash = record {
    now = s.seconds;
    workspace = s.policy.workspace;
    minimum = risk;
    action = some hash;
    consume = true;
  }

  unfoldable pub spend_token : RiskLevel → String → String → World → Result (Unit {0}) × World
  spend_token risk hash token w =
      let answer =
        validate s.crypto s.runtime s.key s.store_io (demand risk hash) token w.approvals in
      (do payload ← answer.0; ok tt, record w { approvals = answer.1 })

  unfoldable pub spend_given :
      RiskLevel → String → Result String → World → Result (Unit {0}) × World
  spend_given risk hash (err e) w = (err e, w)
  spend_given risk hash (ok token) w = spend_token risk hash token w

  -- GPTHandsServer._require_approval
  unfoldable pub check_token : Option Json → RiskLevel → String → World → Result (Unit {0}) × World
  check_token token risk hash w =
      if not (approval_required s.policy risk)
      then (ok tt, w)
      else spend_given risk hash (token_text token) w

  -- V04GPTHandsServer._require_approval; the desktop notification changes no state
  unfoldable pub require_approval :
      Option Json → RiskLevel → String → World → Result (Unit {0}) × World
  require_approval token risk hash w =
      let needed = approval_required s.policy risk in
      then_do (if is_missing token && needed then pending_add risk hash w else (ok tt, w))
        (λ queued v. then_do (check_token token risk hash v) (λ granted u.
          if not (is_missing token) && needed then pending_remove hash u else (ok tt, u)))
