-- ===== src/Server/Handled.antt =====
-- What a message to `handle` of src/gpthands/stable_server.py can change.
use mathlib.Core.Path.{subst}
use gpthands.Prelude.{
  ℕ, ◌≤◌, String, true, false, Option, none, some, ◌≡◌, refl, sym, ap, ◌∙◌, arith, if◌then◌else◌,
  ok, err, Bool-cases, inl, inr, Result,
}
use gpthands.Prelude.Errors.{Error, error}
use gpthands.Json.{negsuc, Json, Fields, get}
use gpthands.Limits.Defs.{ActionLimiter, reserve_rate, acquire_slot, release_slot}
use gpthands.SafeWrite.Complete.{if-intro}
use gpthands.Server.World.{World, Surroundings}
use gpthands.Server.Call.{call_tool}
use gpthands.Server.Handle.{
  id_of, is_method, or_empty, call_of, handle_call, handle_request, handle_limited, handle_v04,
  handle, rpc_error, rpc_result, discover_result, finish_modern,
}

-- The state that a message has left.
abbrev pub left : {A : Type 0} → A × World × ActionLimiter → World × ActionLimiter
left r = (r.1, r.2)

module _ (s : Surroundings) (clock : ℕ) (message : Fields) (w : World) (l : ActionLimiter) where
  -- The world is as it was, or the message was a request of tools/call that names a tool, the limiter has
  -- let it through, and the world is the one that the call of that tool has left. The slots that are
  -- free are as many as before.
  pub data IsGated : World × ActionLimiter → Type 0 where
    idle : (m : ActionLimiter) → m.free_slots ≡ l.free_slots → IsGated (w, m)
    called :
        (request_id : Json) (name : String) (args : Fields) (m : ActionLimiter)
        → id_of message ≡ some request_id
        → is_method message "tools/call" ≡ true
        → call_of s (or_empty (get "params" message)) ≡ ok (name, args)
        → (reserve_rate clock l).0 ≡ ok tt
        → 1 ≤ l.free_slots
        → m.free_slots ≡ l.free_slots
        → IsGated ((call_tool s request_id name args w).1, m)

  reserve_rate-slots : (reserve_rate clock l).1.free_slots ≡ l.free_slots
  unfolding reserve_rate
  reserve_rate-slots = ground arith

  acquire-release :
      (m n : ActionLimiter) (done : Unit {0})
      → acquire_slot m ≡ (ok done, n)
      → (1 ≤ m.free_slots) × ((release_slot n).free_slots ≡ m.free_slots)
  unfolding acquire_slot release_slot
  acquire-release m n done h = ground arith

  acquire-refused :
      (m n : ActionLimiter) (e : Error) → acquire_slot m ≡ (err e, n) → n.free_slots ≡ m.free_slots
  unfolding acquire_slot
  acquire-refused m n e h = ground arith

  Gated : ActionLimiter → Json × World → Type 0
  Gated m r = IsGated (r.1, m)

  handle_call-Gated :
      (request_id : Json) (m : ActionLimiter) (r : Result (String × Fields))
      → call_of s (or_empty (get "params" message)) ≡ r
      → id_of message ≡ some request_id
      → is_method message "tools/call" ≡ true
      → (reserve_rate clock l).0 ≡ ok tt
      → 1 ≤ l.free_slots
      → m.free_slots ≡ l.free_slots
      → Gated m (handle_call s request_id r w)
  unfolding handle_call Gated
  handle_call-Gated request_id m (err e) wanted named is_call reserved free same = idle m same
  handle_call-Gated request_id m (ok (name, args)) wanted named is_call reserved free same =
      called request_id name args m named is_call wanted reserved free same

  handle_request-Gated :
      (request_id : Json) (m : ActionLimiter)
      → id_of message ≡ some request_id
      → (reserve_rate clock l).0 ≡ ok tt
      → 1 ≤ l.free_slots
      → m.free_slots ≡ l.free_slots
      → Gated m (handle_request s request_id message w)
  unfolding handle_request Gated
  handle_request-Gated request_id m named reserved free same =
      if-intro (Gated m) (is_method message "initialize") _ _ (λ e. idle m same)
        (λ e.
          if-intro (Gated m) (is_method message "ping") _ _ (λ f. idle m same)
            (λ f.
              if-intro (Gated m) (is_method message "tools/list") _ _ (λ g. idle m same)
                (λ g.
                  if-intro (Gated m) (is_method message "tools/call") _ _
                    (λ is_call.
                      handle_call-Gated request_id m _ refl named is_call reserved free same)
                    (λ k. idle m same))))

  handle_request-idle :
      (request_id : Json)
      → is_method message "tools/call" ≡ false
      → (handle_request s request_id message w).1 ≡ w
  unfolding handle_request
  handle_request-idle request_id other = ground (arith, other)

  acquired-Gated :
      (request_id : Json) (m n : ActionLimiter) (answer : Result (Unit {0}))
      → id_of message ≡ some request_id
      → (reserve_rate clock l).0 ≡ ok tt
      → m.free_slots ≡ l.free_slots
      → acquire_slot m ≡ (answer, n)
      → IsGated (
          left (elim answer as (λ x. Json × World × ActionLimiter) [
            | err (error kind reason) ↦ (rpc_error request_id (negsuc 32000) reason, w, n)
            | ok held ↦ (
              (handle_request s request_id message w).0,
              (handle_request s request_id message w).1,
              release_slot n,
            )
          ]))
  acquired-Gated request_id m n (err (error kind reason)) named reserved same h =
      idle n (acquire-refused m n _ h ∙ same)
  acquired-Gated request_id m n (ok held) named reserved same h =
      let (free, back) = acquire-release m n held h in
      unfold Gated in
      (handle_request-Gated request_id (release_slot n) named reserved (ground (arith, free, same))
        (back ∙ same))

  reserved-Gated :
      (request_id : Json) (m : ActionLimiter) (answer : Result (Unit {0}))
      → id_of message ≡ some request_id
      → reserve_rate clock l ≡ (answer, m)
      → IsGated (
          left (elim answer as (λ x. Json × World × ActionLimiter) [
            | err (error kind reason) ↦ (rpc_error request_id (negsuc 32000) reason, w, m)
            | ok done ↦ elim (acquire_slot m).0 as (λ x. Json × World × ActionLimiter) [
              | err (error kind reason) ↦
                  (rpc_error request_id (negsuc 32000) reason, w, (acquire_slot m).1)
              | ok held ↦ (
                (handle_request s request_id message w).0,
                (handle_request s request_id message w).1,
                release_slot (acquire_slot m).1,
              )
            ]
          ]))
  reserved-Gated request_id m (err (error kind reason)) named h =
      idle m (sym (ap (λ r. r.1.free_slots) h) ∙ reserve_rate-slots)
  reserved-Gated request_id m (ok done) named h =
      acquired-Gated request_id m (acquire_slot m).1 (acquire_slot m).0 named (ap (λ r. r.0) h)
        (sym (ap (λ r. r.1.free_slots) h) ∙ reserve_rate-slots) refl

  handle_limited-IsGated :
      (request_id : Json)
      → id_of message ≡ some request_id
      → IsGated (left (handle_limited s clock request_id message w l))
  unfolding handle_limited
  handle_limited-IsGated request_id named =
      reserved-Gated request_id (reserve_rate clock l).1 (reserve_rate clock l).0 named refl

  Answered : Json × World × ActionLimiter → Type 0
  Answered r = IsGated (left r)

  unchanged-IsGated : (v : World) → v ≡ w → IsGated (v, l)
  unchanged-IsGated v same = subst (λ x. IsGated (x, l)) (sym same) (idle l refl)

  handle_v04-IsGated :
      (request_id : Json)
      → id_of message ≡ some request_id
      → IsGated (left (handle_v04 s clock request_id message w l))
  unfolding handle_v04 Answered
  handle_v04-IsGated request_id named = elim (Bool-cases (is_method message "tools/call")) [
    | inl is_call ↦ rw is_call (handle_limited-IsGated request_id named)
    | inr other ↦ rw other (
        if-intro Answered (is_method message "initialize") _ _
          (λ e. unchanged-IsGated _ (handle_request-idle request_id other))
          (λ e. unchanged-IsGated _ (handle_request-idle request_id other)))
  ]

  Ended : Option Json × World × ActionLimiter → Type 0
  Ended r = IsGated (left r)

  identified-IsGated :
      (found : Option Json)
      → id_of message ≡ found
      → IsGated (
          left (elim found as (λ x. Option Json × World × ActionLimiter) [
            | none ↦ (none, w, l)
            | some request_id ↦
                let handled = handle_v04 s clock request_id message w l in
                if is_method message "server/discover"
                then (some (rpc_result request_id discover_result), w, l)
                else (some (finish_modern s message handled.0), handled.1, handled.2)
          ]))
  unfolding Ended
  identified-IsGated none named = idle l refl
  identified-IsGated (some request_id) named =
      if-intro Ended (is_method message "server/discover") _ _ (λ e. idle l refl)
        (λ e. handle_v04-IsGated request_id named)

  -- Whatever the message, the server's state is as it was, or the message was a request of tools/call
  -- that names a tool, the limiter has let it through, a slot was free, and the state is the one that
  -- the call of that tool has left; and as many slots are free after it as before.
  pub handle-IsGated : IsGated (left (handle s clock message w l))
  unfolding handle
  handle-IsGated = identified-IsGated (id_of message) refl
