-- ===== src/Server/Responded.antt =====
-- The form of what `handle` of src/gpthands/stable_server.py answers.
use gpthands.Prelude.{
  ℕ, String, Bool, Option, none, some, ◌≡◌, refl, string_discrete, take_chars, ok, err, Bool-cases,
  Result-cases, inl, inr, Result,
}
use gpthands.Prelude.Errors.{Error, error}
use gpthands.Json.{ℤ, Json, text, obj, Fields, end, field, get, put, as_fields}
use gpthands.Limits.Defs.{ActionLimiter, reserve_rate, acquire_slot}
use gpthands.SafeWrite.Complete.{if-intro}
use gpthands.Audit.Redact.{redact_text}
use gpthands.Server.World.{World, Surroundings, Answer}
use gpthands.Server.Call.{call_tool, dispatch, recorded, settle, failed_call, tool_result}
use gpthands.Server.Handle.{
  id_of, is_method, or_empty, is_modern, call_of, respond_call, handle_call, handle_request,
  handle_limited, handle_v04, handle, rpc_error, rpc_result, is_reported, error_response, amend,
  legacy_result, stamp, initialize_result, discover_result, finish_modern,
}

-- A response of JSON-RPC 2.0 to the request of the id, with an object as its result or with an error of a
-- code and a message, and with nothing else.
pub data IsResponse (request_id : Json) : Json → Type 0 where
  answered :
      (result : Fields)
      → IsResponse request_id (
          obj (
            field "jsonrpc" (text "2.0") (field "id" request_id (field "result" (obj result) end))))
  refused :
      (code : ℤ) (message : String) → IsResponse request_id (rpc_error request_id code message)

-- A request that names an id has one response, and a notification has none.
pub data Responds : Option Json → Option Json → Type 0 where
  silent : Responds none none
  responds :
      (request_id : Json) (response : Json)
      → IsResponse request_id response
      → Responds (some request_id) (some response)

amend-IsResponse :
    (request_id : Json) (change : Fields → Fields) (r : Json)
    → IsResponse request_id r
    → IsResponse request_id (amend change r)
unfolding amend get put as_fields string_discrete rpc_error
amend-IsResponse request_id change r (answered result) = answered (change result)
amend-IsResponse request_id change r (refused code message) = refused code message

error_response-IsResponse :
    (request_id : Json) (e : Error) → IsResponse request_id (error_response request_id e)
unfolding error_response
error_response-IsResponse request_id (error kind message) = elim (Bool-cases (is_reported kind)) [
  | inl shown ↦ rw shown (refused _ _)
  | inr hidden ↦ rw hidden (refused _ _)
]

-- What a tool's call returns is the object of a tool's result.
pub data IsToolResult : Result Json → Type 0 where
  raised : (e : Error) → IsToolResult (err e)
  returned : (shown : String) (is_error : Bool) → IsToolResult (ok (tool_result shown is_error))

module _ (s : Surroundings) where
  failed_call-IsToolResult :
      (request_id : Json) (name : String) (e : Error) (w : World)
      → IsToolResult (failed_call s request_id name e w).0
  unfolding failed_call
  failed_call-IsToolResult request_id name (error kind message) w =
      let detail = obj (field "error" (text (take_chars 500 (redact_text message))) end) in
      elim (Result-cases (recorded s request_id name "denied_or_failed" detail w.log).0) [
        | inl (e, fails) ↦ rw (fails, failed_call) (raised e)
        | inr (done, kept) ↦ rw (kept, failed_call) (returned _ _)
      ]

  settle-IsToolResult :
      (request_id : Json) (name : String) (r : Result Answer × World)
      → IsToolResult (settle s request_id name r).0
  unfolding settle
  settle-IsToolResult request_id name (err e, w) = failed_call-IsToolResult request_id name e w
  settle-IsToolResult request_id name (ok (shown, detail), w) =
      elim (Result-cases (recorded s request_id name "allowed" detail w.log).0) [
        | inl (e, fails) ↦ rw (fails, settle) (failed_call-IsToolResult request_id name e _)
        | inr (done, kept) ↦ rw (kept, settle) (returned _ _)
      ]

  respond_call-IsResponse :
      (request_id : Json) (r : Result Json)
      → IsToolResult r
      → IsResponse request_id (respond_call s request_id r)
  unfolding respond_call rpc_result tool_result
  respond_call-IsResponse request_id r (raised e) = error_response-IsResponse request_id e
  respond_call-IsResponse request_id r (returned shown is_error) = answered _

  handle_call-IsResponse :
      (request_id : Json) (r : Result (String × Fields)) (w : World)
      → IsResponse request_id (handle_call s request_id r w).0
  unfolding handle_call call_tool
  handle_call-IsResponse request_id (err e) w = error_response-IsResponse request_id e
  handle_call-IsResponse request_id (ok (name, args)) w =
      respond_call-IsResponse request_id _
        (settle-IsToolResult request_id name (dispatch s name args w))

  Answers : Json → Json × World → Type 0
  Answers request_id r = IsResponse request_id r.0

  handle_request-IsResponse :
      (request_id : Json) (message : Fields) (w : World)
      → IsResponse request_id (handle_request s request_id message w).0
  unfolding handle_request rpc_result initialize_result Answers
  handle_request-IsResponse request_id message w =
      if-intro (Answers request_id) (is_method message "initialize") _ _ (λ e. answered _)
        (λ e.
          if-intro (Answers request_id) (is_method message "ping") _ _ (λ e. answered _)
            (λ e.
              if-intro (Answers request_id) (is_method message "tools/list") _ _ (λ e. answered _)
                (λ e.
                  if-intro (Answers request_id) (is_method message "tools/call") _ _
                    (λ e.
                      handle_call-IsResponse request_id
                        (call_of s (or_empty (get "params" message))) w)
                    (λ e. refused _ _))))

  Limited : Json → Json × World × ActionLimiter → Type 0
  Limited request_id r = IsResponse request_id r.0

  handle_limited-IsResponse :
      (clock : ℕ) (request_id : Json) (message : Fields) (w : World) (l : ActionLimiter)
      → IsResponse request_id (handle_limited s clock request_id message w l).0
  unfolding handle_limited
  handle_limited-IsResponse clock request_id message w l =
      elim (Result-cases (reserve_rate clock l).0) [
        | inl (error kind reason, full) ↦ rw (full, handle_limited) (refused _ _)
        | inr (u, reserved) ↦ elim (Result-cases (acquire_slot (reserve_rate clock l).1).0) [
          | inl (error kind reason, full) ↦ rw (reserved, full, handle_limited) (refused _ _)
          | inr (v, held) ↦
              rw (reserved, held, handle_limited) (handle_request-IsResponse request_id message w)
        ]
      ]

  handle_v04-IsResponse :
      (clock : ℕ) (request_id : Json) (message : Fields) (w : World) (l : ActionLimiter)
      → IsResponse request_id (handle_v04 s clock request_id message w l).0
  unfolding handle_v04 Limited
  handle_v04-IsResponse clock request_id message w l =
      let free = handle_request-IsResponse request_id message w in
      if-intro (Limited request_id) (is_method message "tools/call") _ _
        (λ e. handle_limited-IsResponse clock request_id message w l)
        (λ e.
          if-intro (Limited request_id) (is_method message "initialize") _ _
            (λ e. amend-IsResponse request_id _ _ free) (λ e. free))

  finish_modern-IsResponse :
      (request_id : Json) (message : Fields) (r : Json)
      → IsResponse request_id r
      → IsResponse request_id (finish_modern s message r)
  unfolding finish_modern
  finish_modern-IsResponse request_id message r h =
      let listed =
        if-intro (IsResponse request_id) (is_method message "tools/list") _ r
          (λ e. amend-IsResponse request_id _ r h) (λ e. h) in
      if-intro (IsResponse request_id) (is_method message "initialize") _ _
        (λ e. amend-IsResponse request_id legacy_result r h)
        (λ e.
          if-intro (IsResponse request_id) (is_modern message) _ _
            (λ e. amend-IsResponse request_id stamp _ listed) (λ e. listed))

  discovered :
      (request_id : Json)
      → Responds (some request_id) (some (rpc_result request_id discover_result))
  unfolding rpc_result discover_result
  discovered request_id = responds request_id _ (answered _)

  Ended : Option Json → Option Json × World × ActionLimiter → Type 0
  Ended named r = Responds named r.0

  identified-Responds :
      (clock : ℕ) (message : Fields) (w : World) (l : ActionLimiter) (named : Option Json)
      → id_of message ≡ named
      → Responds named (handle s clock message w l).0
  unfolding handle Ended
  identified-Responds clock message w l none unnamed = rw (unnamed, handle) silent
  identified-Responds clock message w l (some request_id) named =
      let whole =
        if-intro (Ended (some request_id)) (is_method message "server/discover")
          (some (rpc_result request_id discover_result), w, l)
          (let handled = handle_v04 s clock request_id message w l in
            (some (finish_modern s message handled.0), handled.1, handled.2))
          (λ e. discovered request_id)
          (λ e. responds request_id _ (
            finish_modern-IsResponse request_id message _
              (handle_v04-IsResponse clock request_id message w l))) in
      rw (named, handle) whole

  -- Whatever the message and the state: a message without an id is not answered, and one with an id has
  -- one response of JSON-RPC 2.0 that names this id and holds either an object as the result or an error
  -- of a code and a message.
  pub handle-Responds :
      (clock : ℕ) (message : Fields) (w : World) (l : ActionLimiter)
      → Responds (id_of message) (handle s clock message w l).0
  handle-Responds clock message w l = identified-Responds clock message w l (id_of message) refl
