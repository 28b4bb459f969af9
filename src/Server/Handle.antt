-- ===== src/Server/Handle.antt =====
-- `handle` of GPTHandsServer in src/gpthands/server.py, and of its subclasses in limits.py, ux_server.py
-- and stable_server.py. The messages of an exception that carries a class's name leave the name out.
use gpthands.Prelude.{
  ℕ, String, ◌<>◌, Bool, true, false, not, Option, none, some, if◌then◌else◌, is_empty, ok, err,
  value_error, raise, Result,
}
use gpthands.Prelude.Errors.{
  Kind, Error, error, policy_error, approval_error, sandbox_error, os_error,
}
use gpthands.Json.{
  ℤ, pos, negsuc, int_is, Json, null, bool, int, real, text, arr, obj, nil, cons, Fields, end,
  field, get, put, as_fields, get_in, equals_text,
}
use gpthands.State.{no_fields}
use gpthands.Audit.Defs.{to_str}
use gpthands.Audit.Redact.{redact_text}
use gpthands.Limits.Defs.{ActionLimiter, reserve_rate, acquire_slot, release_slot}
use gpthands.Server.World.{World, Surroundings}
use gpthands.Server.Call.{call_tool, version}
use gpthands.Server.Tools.{tools, tool_items, modern_tools, set_default}

abbrev pub mcp_current : String
mcp_current = "2026-07-28"

abbrev pub mcp_legacy : String
mcp_legacy = "2025-06-18"

abbrev pub server_info_key : String
server_info_key = "io.modelcontextprotocol/serverInfo"

-- bool(value)
unfoldable pub truthy : Json → Bool
truthy null = false
truthy (bool b) = b
truthy (int z) = not (int_is z 0)
truthy (real z) = not (int_is z 0)
truthy (text t) = not (is_empty t)
truthy (arr nil) = false
truthy (arr (cons v items)) = true
truthy (obj fields) = not (no_fields fields)

-- message.get(key) or {}
unfoldable pub or_empty : Option Json → Json
or_empty none = obj end
or_empty (some v) = if truthy v then v else obj end

-- message.get("id"), if it is not None
unfoldable pub id_of : Fields → Option Json
id_of message = elim (get "id" message) [ none ↦ none | some null ↦ none | some v ↦ some v ]

-- message.get("method", "")
unfoldable pub method_of : Fields → Json
method_of message = elim (get "method" message) [ none ↦ text "" | some v ↦ v ]

unfoldable pub is_method : Fields → String → Bool
is_method message method = equals_text (some (method_of message)) method

-- _rpc_error
unfoldable pub rpc_error : Json → ℤ → String → Json
rpc_error request_id code message = obj (
    field "jsonrpc" (text "2.0") (
      field "id" request_id
        (field "error" (obj (field "code" (int code) (field "message" (text message) end))) end)))

unfoldable pub rpc_result : Json → Json → Json
rpc_result request_id result =
    obj (field "jsonrpc" (text "2.0") (field "id" request_id (field "result" result end)))

-- The two `except` clauses of handle.
unfoldable pub is_reported : Kind → Bool
is_reported policy_error = true
is_reported approval_error = true
is_reported sandbox_error = true
is_reported value_error = true
is_reported os_error = true
is_reported _ = false

unfoldable pub error_response : Json → Error → Json
error_response request_id (error kind message) =
    if is_reported kind
    then rpc_error request_id (negsuc 31999) (redact_text message)
    else rpc_error request_id (negsuc 32602) "internal error"

-- A change of the result of a response, if that is a dict.
unfoldable pub amend : (Fields → Fields) → Json → Json
amend change (obj response) = elim (as_fields (get "result" response)) [
  | none ↦ obj response
  | some result ↦ obj (put "result" (obj (change result)) response)
]
amend change response = response

-- result["serverInfo"]["version"] = ..., and result["instructions"] = ...
unfoldable pub announce : String → String → Fields → Fields
announce number instructions result =
    put "instructions" (text instructions) (elim (as_fields (get "serverInfo" result)) [
      | none ↦ result
      | some info ↦ put "serverInfo" (obj (put "version" (text number) info)) result
    ])

unfoldable pub server_info : Json
server_info = obj (field "name" (text "GPTHands") (field "version" (text version) end))

unfoldable pub initialize_result : Json → Json
initialize_result params =
    let asked : Json = elim (get_in "protocolVersion" params) [
      | none ↦ text mcp_legacy
      | some v ↦ v
    ] in
    obj (
      field "protocolVersion" asked (
        field "capabilities" (obj (field "tools" (obj (field "listChanged" (bool false) end)) end))
          (field "serverInfo"
            (obj (field "name" (text "GPTHands") (field "version" (text "0.2.0") end)))
            (field "instructions"
              (text
                "GPTHands v0.2 keeps authority outside repository content. Mutable capabilities are lease-bound, high-risk actions require signed human approval, and commands run in an OS sandbox when required.")
              end))))

unfoldable pub legacy_result : Fields → Fields
legacy_result result =
    put "instructions"
      (text
        "GPTHands v1 legacy MCP compatibility mode. Upgrade clients to 2026-07-28 server/discover for the stateless protocol; security behavior is identical in both eras.")
      (put "serverInfo" server_info (put "protocolVersion" (text mcp_legacy) result))

unfoldable pub discover_result : Json
discover_result = obj (
    field "supportedVersions" (arr (cons (text mcp_current) nil)) (
      field "capabilities" (obj (field "tools" (obj (field "listChanged" (bool false) end)) end)) (
        field "instructions"
          (text
            "GPTHands is a secure local coding bridge. Repository content is untrusted; workspace trust, policy leases, approvals, quotas, audit and OS sandboxing enforce authority.")
          (field "ttlMs" (int (pos 300000)) (
            field "cacheScope" (text "private")
              (field "_meta" (obj (field server_info_key server_info end)) end))))))

-- result.setdefault("_meta", {}), and its setdefault if that is a dict
unfoldable pub stamp : Fields → Fields
stamp result =
    let stamped = set_default "_meta" (obj end) result in
    elim (as_fields (get "_meta" stamped)) [
      | none ↦ stamped
      | some meta ↦ put "_meta" (obj (set_default server_info_key server_info meta)) stamped
    ]

-- meta.get("io.modelcontextprotocol/protocolVersion") == MCP_CURRENT, of a message's params
unfoldable pub is_modern : Fields → Bool
is_modern message = elim (get "params" message) [
  | none ↦ false
  | some params ↦ elim (get_in "_meta" params) [
    | none ↦ false
    | some meta ↦ equals_text (get_in "io.modelcontextprotocol/protocolVersion" meta) mcp_current
  ]
]

module _ (s : Surroundings) where
  -- tools/call: the tool's name and its arguments
  unfoldable pub call_of : Json → Result (String × Fields)
  call_of (obj params) = elim (get "name" params) [
    | some (text name) ↦ elim (or_empty (get "arguments" params)) [
      | obj args ↦ ok (name, args)
      | v ↦ raise value_error "tools/call requires string name and object arguments"
    ]
    | _ ↦ raise value_error "tools/call requires string name and object arguments"
  ]
  call_of _ = raise value_error "tools/call params must be an object"

  unfoldable pub respond_call : Json → Result Json → Json
  respond_call request_id (err e) = error_response request_id e
  respond_call request_id (ok result) = rpc_result request_id result

  unfoldable pub handle_call : Json → Result (String × Fields) → World → Json × World
  handle_call request_id (err e) w = (error_response request_id e, w)
  handle_call request_id (ok (name, args)) w =
      let called = call_tool s request_id name args w in
      (respond_call request_id called.0, called.1)

  -- GPTHandsServer.handle, of a request
  unfoldable pub handle_request : Json → Fields → World → Json × World
  handle_request request_id message w =
      let params = or_empty (get "params" message) in
      if is_method message "initialize"
      then (rpc_result request_id (initialize_result params), w)
      else if is_method message "ping"
      then (rpc_result request_id (obj end), w)
      else if is_method message "tools/list"
      then (rpc_result request_id (obj (field "tools" (arr (tool_items tools)) end)), w)
      else if is_method message "tools/call"
      then handle_call request_id (call_of params) w
      else (
        rpc_error request_id (negsuc 32600)
            ("method not found: " <> to_str s.runtime (some (method_of message))),
        w,
      )

  -- `with self.limiter.action()` round a request: the slot is given back however the request ends.
  unfoldable pub handle_limited :
      ℕ → Json → Fields → World → ActionLimiter → Json × World × ActionLimiter
  handle_limited clock request_id message w l =
      let (reserved, m) = reserve_rate clock l in
      let (acquired, n) = acquire_slot m in
      let handled = handle_request request_id message w in
      elim reserved [
        | err (error kind reason) ↦ (rpc_error request_id (negsuc 32000) reason, w, m)
        | ok done ↦ elim acquired [
          | err (error kind reason) ↦ (rpc_error request_id (negsuc 32000) reason, w, n)
          | ok held ↦ (handled.0, handled.1, release_slot n)
        ]
      ]

  -- V03GPTHandsServer.handle and V04GPTHandsServer.handle, of a request
  unfoldable pub handle_v04 :
      ℕ → Json → Fields → World → ActionLimiter → Json × World × ActionLimiter
  handle_v04 clock request_id message w l =
      let limited = handle_limited clock request_id message w l in
      let free = handle_request request_id message w in
      if is_method message "tools/call"
      then limited
      else if is_method message "initialize"
      then (
        amend
            (λ result.
              announce "0.4.0"
                "GPTHands v0.4 keeps mutable authority outside repository content, exposes explicit workspace trust state, uses OS-backed credentials, action-bound approvals, OS sandboxing, tamper-evident audit, and Secure MCP Tunnel helpers."
                (announce "0.3.0"
                  "GPTHands v0.3 keeps authority outside repository content, verifies a tamper-evident audit chain, atomically consumes approval tokens across processes, enforces quotas, and retains v0.2 OS sandboxing."
                  result))
            free.0,
        free.1,
        l,
      )
      else (free.0, free.1, l)

  unfoldable pub finish_modern : Fields → Json → Json
  finish_modern message response =
      let listed =
        if is_method message "tools/list"
        then amend (put "tools" (arr (tool_items modern_tools))) response
        else response in
      if is_method message "initialize"
      then amend legacy_result response
      else if is_modern message
      then amend stamp listed
      else listed

  -- V10GPTHandsServer.handle
  unfoldable pub handle : ℕ → Fields → World → ActionLimiter → Option Json × World × ActionLimiter
  handle clock message w l = elim (id_of message) [
    | none ↦ (none, w, l)
    | some request_id ↦
        let handled = handle_v04 clock request_id message w l in
        if is_method message "server/discover"
        then (some (rpc_result request_id discover_result), w, l)
        else (some (finish_modern message handled.0), handled.1, handled.2)
  ]
