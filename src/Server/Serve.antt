-- ===== src/Server/Serve.antt =====
-- `serve_stdio_bounded` of src/gpthands/stable_server.py, over the whole of its input, for any handler of
-- messages and the state it keeps.
use Prim.Native.Char.{Char, code}
use gpthands.Prelude.{
  ℕ, zero, suc, String, Bool, false, ◌||◌, Option, none, some, List, [], ◌∷◌, ltb, leb, ◌==◌,
  if◌then◌else◌, is_empty, strip, cons_char, count, value_error, ok, ◌>>◌,
}
use gpthands.Prelude.Errors.{Result, require}
use gpthands.Json.{negsuc, Json, null, int, text, obj, Fields, end, field}
use gpthands.Audit.Defs.{Runtime}
use gpthands.Audit.Redact.{redact_text}

-- source.readline(limit): what is read, and what is left of the input
unfoldable pub readline : ℕ → String → String × String
readline zero s = ("", s)
readline (suc n) String.[] = ("", "")
readline (suc n) (String.◌∷◌ c s) =
    let rest = readline n s in
    if code c == 10 then (cons_char c "", s) else (cons_char c rest.0, rest.1)

-- raw.endswith(b"\n")
unfoldable pub ends_line : String → Bool
ends_line String.[] = false
ends_line (String.◌∷◌ c String.[]) = code c == 10
ends_line (String.◌∷◌ c (String.◌∷◌ d s)) = ends_line (String.◌∷◌ d s)

-- The inner loop, which reads on to the end of the line.
unfoldable pub skip_line : ℕ → ℕ → String → String
skip_line zero limit s = s
skip_line (suc fuel) limit s =
    let tail = readline limit s in
    let more = skip_line fuel limit tail.1 in
    if is_empty tail.0 || ends_line tail.0 then tail.1 else more

-- _rpc_error(None, -32700, message)
unfoldable pub parse_failure : String → Json
parse_failure message = obj (
    field "jsonrpc" (text "2.0") (
      field "id" null (
        field "error" (obj (field "code" (int (negsuc 32699)) (field "message" (text message) end)))
          end)))

abbrev pub too_long : Json
too_long = parse_failure "MCP request exceeds stable input byte limit"

unfoldable pub emit : Option Json → List Json → List Json
emit none responses = responses
emit (some response) responses = response ∷ responses

-- `complaint` is the message of the exception that decoding or json.loads raises.
module _ {S : Type 0} (rt : Runtime) (is_utf8 : String → Bool) (complaint : String → String)
    (handle : Fields → S → Option Json × S) where
  -- The handling of what json.loads gives for the text.
  unfoldable pub respond_json : String → Option Json → S → Option Json × S
  respond_json raw (some (obj message)) st = handle message st
  respond_json raw (some v) st =
      (some (parse_failure (redact_text "JSON-RPC message must be an object")), st)
  respond_json raw none st = (some (parse_failure (redact_text (complaint raw))), st)

  -- One line within the limit: a blank one has no response.
  unfoldable pub respond : String → S → Option Json × S
  respond raw st =
      if is_empty (strip raw)
      then (none, st)
      else if is_utf8 (strip raw)
      then respond_json (strip raw) (rt.loads (strip raw)) st
      else (some (parse_failure (redact_text (complaint (strip raw)))), st)

  -- One round of the loop on what `readline` has read: the response, the state and the input left.
  unfoldable pub round : ℕ → String → String → S → Option Json × S × String
  round limit raw rest st =
      if ltb limit (count raw)
      then (
        some too_long,
        st,
        if ends_line raw then rest else skip_line (suc (count rest)) (suc limit) rest,
      )
      else let answer = respond raw st in (answer.0, answer.1, rest)

  -- The loop: the responses in their order, and the state at the end of the input.
  unfoldable pub serve : ℕ → ℕ → String → S → List Json × S
  serve zero limit input st = ([], st)
  serve (suc fuel) limit input st =
      let raw = readline (suc limit) input in
      let (response, next, left) = round limit raw.0 raw.1 st in
      let later = serve fuel limit left next in
      if is_empty raw.0 then ([], st) else (emit response later.0, later.1)

  -- serve_stdio_bounded
  unfoldable pub serve_stdio_bounded : ℕ → String → S → Result (List Json × S)
  serve_stdio_bounded max_request_bytes input st = do
    require (leb 1024 max_request_bytes) value_error "max_request_bytes is too small"
    ok (serve (suc (count input)) max_request_bytes input st)

  -- What the loop is to do: each line of the input, handled by itself and in order, and one that is longer
  -- than the limit, with its newline, refused.
  unfoldable pub answer_line : ℕ → String → S → Option Json × S
  answer_line limit line st =
      if ltb limit (count line) then (some too_long, st) else respond line st

  unfoldable pub answer_lines : ℕ → List String → S → List Json × S
  answer_lines limit [] st = ([], st)
  answer_lines limit (line ∷ lines) st =
      let answer = answer_line limit line st in
      let later = answer_lines limit lines answer.1 in (emit answer.0 later.0, later.1)

-- A character put before the first of the lines.
unfoldable pub onto_line : Char → List String → List String
onto_line c [] = cons_char c "" ∷ []
onto_line c (line ∷ lines) = cons_char c line ∷ lines

-- The lines of the input, each with its newline.
unfoldable pub lines_of : String → List String
lines_of String.[] = []
lines_of (String.◌∷◌ c s) =
    let rest = lines_of s in if code c == 10 then cons_char c "" ∷ rest else onto_line c rest
