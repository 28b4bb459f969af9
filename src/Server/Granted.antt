-- ===== src/Server/Granted.antt =====
-- What `_require_approval` of src/gpthands/ux_server.py leaves alone, and what its return means.
use gpthands.Prelude.{
  String, Bool, true, false, not, ◌&&◌, Option, none, some, ◌≡◌, refl, arith, ok, err,
  if◌then◌else◌, is_empty, Bool-cases, Result-cases, inl, inr,
}
use gpthands.Prelude.Errors.{Result}
use gpthands.Json.{Json, null, bool, int, real, text, arr, obj, Fields}
use gpthands.Policy.Defs.{approval_required}
use gpthands.Risk.{RiskLevel}
use gpthands.Approval.Tokens.{validate, inspect}
use gpthands.Approval.Acceptance.{IsGranted}
use gpthands.Approval.OneUse.{validate-IsGranted}
use gpthands.Server.World.{World, Surroundings, then_do}
use gpthands.Server.Approve.{
  is_missing, token_text, pending_add, pending_remove, demand, spend_token, spend_given,
  check_token, require_approval,
}

-- Only the approvals and the queue differ.
pub record Keeps (w v : World) : Type 0 where
  pub same_disk : v.disk ≡ w.disk
  pub same_previews : v.previews ≡ w.previews
  pub same_log : v.log ≡ w.log

Keeps-refl : (w : World) → Keeps w w
Keeps-refl w = record { same_disk = refl; same_previews = refl; same_log = refl }

Keeps-trans : (w v u : World) → Keeps w v → Keeps v u → Keeps w u
Keeps-trans w v u h k = record {
  same_disk = ground (arith, h.same_disk, k.same_disk);
  same_previews = ground (arith, h.same_previews, k.same_previews);
  same_log = ground (arith, h.same_log, k.same_log);
}

then_do-Keeps {ℓ κ} :
    {A : Type ℓ} {B : Type κ} (w : World) (first : Result A × World)
    (rest : A → World → Result B × World)
    → Keeps w first.1
    → ((a : A) (v : World) → Keeps v (rest a v).1)
    → Keeps w (then_do first rest).1
then_do-Keeps w (err e, v) rest h k = h
then_do-Keeps w (ok a, v) rest h k = Keeps-trans w v _ h (k a v)

-- A block that returns has had its first call return.
pub then_do_returned {ℓ κ} :
    {A : Type ℓ} {B : Type κ} (first : Result A × World) (rest : A → World → Result B × World)
    (b : B)
    → (then_do first rest).0 ≡ ok b
    → (a : A) × (first.0 ≡ ok a)
      × ((rest a first.1).0 ≡ ok b)
      × (then_do first rest ≡ rest a first.1)
then_do_returned (err e, w) rest b h = absurd (ground arith)
then_do_returned (ok a, w) rest b h = (a, refl, h, refl)

module _ (s : Surroundings) where
  pending_add-Keeps :
      (risk : RiskLevel) (hash : String) (w : World) → Keeps w (pending_add s risk hash w).1
  unfolding pending_add
  pending_add-Keeps risk hash w = record {
    same_disk = ground arith;
    same_previews = ground arith;
    same_log = ground arith;
  }

  pending_remove-Keeps : (hash : String) (w : World) → Keeps w (pending_remove s hash w).1
  unfolding pending_remove
  pending_remove-Keeps hash w = record {
    same_disk = ground arith;
    same_previews = ground arith;
    same_log = ground arith;
  }

  spend_given-Keeps :
      (token : Result String) (risk : RiskLevel) (hash : String) (w : World)
      → Keeps w (spend_given s risk hash token w).1
  unfolding spend_given spend_token
  spend_given-Keeps (err e) risk hash w = Keeps-refl w
  spend_given-Keeps (ok t) risk hash w = record {
    same_disk = refl;
    same_previews = refl;
    same_log = refl;
  }

  check_token-Keeps :
      (token : Option Json) (risk : RiskLevel) (hash : String) (w : World)
      → Keeps w (check_token s token risk hash w).1
  unfolding check_token
  check_token-Keeps token risk hash w = elim (Bool-cases (approval_required s.policy risk)) [
    | inl needed ↦ rw needed (spend_given-Keeps (token_text token) risk hash w)
    | inr free ↦ rw free (Keeps-refl w)
  ]

  if-Keeps :
      (b : Bool) (w : World) (r : Result (Unit {0}) × World)
      → Keeps w r.1
      → Keeps w (if b then r else (ok tt, w)).1
  if-Keeps true w r h = h
  if-Keeps false w r h = Keeps-refl w

  -- Whether it returns or raises, `_require_approval` leaves the disk, the previews and the log alone.
  pub require_approval-Keeps :
      (token : Option Json) (risk : RiskLevel) (hash : String) (w : World)
      → Keeps w (require_approval s token risk hash w).1
  unfolding require_approval
  require_approval-Keeps token risk hash w =
      then_do-Keeps w _ _
        (if-Keeps (is_missing token && approval_required s.policy risk) w _
          (pending_add-Keeps risk hash w))
        (λ queued v.
          then_do-Keeps v (check_token s token risk hash v) _ (check_token-Keeps token risk hash v)
            (λ granted u.
              if-Keeps (not (is_missing token) && approval_required s.policy risk) u _
                (pending_remove-Keeps hash u)))

  -- A token was given that is signed with the key, unexpired, and for this workspace, this action and
  -- a level that covers the one asked for.
  pub record IsApproved (token : Option Json) (risk : RiskLevel) (hash : String) : Type 0 where
    pub token_given : String
    pub given : token ≡ some (text token_given)
    pub payload : Fields
    pub granted : IsGranted s.crypto s.runtime s.key (demand s risk hash) token_given payload

  empty-refused :
      (risk : RiskLevel) (hash : String) (w : World) (v : Unit {0})
      → (spend_token s risk hash "" w).0 ≡ ok v
      → ⊥
  unfolding spend_token validate inspect is_empty
  empty-refused risk hash w v h = ground arith

  spend_token-IsApproved :
      (risk : RiskLevel) (hash token : String) (w : World) (v : Unit {0})
      → (spend_token s risk hash token w).0 ≡ ok v
      → IsApproved (some (text token)) risk hash
  unfolding spend_token
  spend_token-IsApproved risk hash token w v h =
      elim (Result-cases
        (validate s.crypto s.runtime s.key s.store_io (demand s risk hash) token w.approvals).0) [
          | inl (e, fails) ↦ absurd (ground arith)
          | inr (payload, accepted) ↦ record {
            token_given = token;
            given = refl;
            payload = payload;
            granted =
                validate-IsGranted s.crypto s.runtime s.key token s.store_io (demand s risk hash)
                  w.approvals payload accepted;
          }
        ]

  spend_given-IsApproved :
      (token : Option Json) (risk : RiskLevel) (hash : String) (w : World) (v : Unit {0})
      → (spend_given s risk hash (token_text token) w).0 ≡ ok v
      → IsApproved token risk hash
  unfolding spend_given token_text
  spend_given-IsApproved none risk hash w v h = absurd (empty-refused risk hash w v h)
  spend_given-IsApproved (some null) risk hash w v h = absurd (empty-refused risk hash w v h)
  spend_given-IsApproved (some (text t)) risk hash w v h = spend_token-IsApproved risk hash t w v h
  spend_given-IsApproved (some (bool b)) risk hash w v h = absurd (ground arith)
  spend_given-IsApproved (some (int b)) risk hash w v h = absurd (ground arith)
  spend_given-IsApproved (some (real b)) risk hash w v h = absurd (ground arith)
  spend_given-IsApproved (some (arr b)) risk hash w v h = absurd (ground arith)
  spend_given-IsApproved (some (obj b)) risk hash w v h = absurd (ground arith)

  check_token-IsApproved :
      (token : Option Json) (risk : RiskLevel) (hash : String) (w : World) (v : Unit {0})
      → approval_required s.policy risk ≡ true
      → (check_token s token risk hash w).0 ≡ ok v
      → IsApproved token risk hash
  unfolding check_token
  check_token-IsApproved token risk hash w v needed h =
      spend_given-IsApproved token risk hash w v (ground arith)

  -- Where approval is required, `_require_approval` returns only for an approved token.
  pub require_approval-IsApproved :
      (token : Option Json) (risk : RiskLevel) (hash : String) (w : World) (v : Unit {0})
      → approval_required s.policy risk ≡ true
      → (require_approval s token risk hash w).0 ≡ ok v
      → IsApproved token risk hash
  unfolding require_approval
  require_approval-IsApproved token risk hash w v needed h =
      let (queued, added, then_checked, same) =
        then_do_returned
          (if is_missing token && approval_required s.policy risk
            then pending_add s risk hash w
            else (ok tt, w))
          _ v h in
      let (done, checked, last, again) =
        then_do_returned (check_token s token risk hash _) _ v then_checked in
      check_token-IsApproved token risk hash _ done needed checked
