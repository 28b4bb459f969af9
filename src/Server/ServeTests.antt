-- ===== src/Server/ServeTests.antt =====
-- An input of three lines, the second one blank and the last one without a newline, and a request.
use gpthands.Prelude.{
  ℕ, suc, ◌≡◌, true, Option, none, some, [], ◌∷◌, refl, arith, ok, is_empty, strip,
}
use gpthands.Json.{Json, obj, text, Fields, end, field}
use gpthands.Audit.Defs.{Runtime}
use gpthands.Server.Serve.{
  serve_stdio_bounded, answer_lines, answer_line, respond, respond_json, emit, lines_of, onto_line,
}
use gpthands.Limits.Defs.{ActionLimiter}
use gpthands.Server.Handle.{id_of, handle}
use gpthands.Server.Handled.{IsGated, left, handle-IsGated}
use gpthands.Server.Responded.{Responds, handle-Responds}
use gpthands.Server.Samples.{server, world, edit_args}
use gpthands.Server.Served.{serve_stdio_bounded-answer_lines}

abbrev runtime : Runtime
runtime = record {
  sha256 = λ t. t;
  loads = λ t. some (obj (field "line" (text t) end));
  dumps = λ v. "";
  dumps_sorted = λ v. "";
  dumps_compact = λ v. "";
  show = λ v. "";
  parse_int = λ t. none;
  truncate = λ z. z;
}

-- A handler that answers with the message and counts.
abbrev echo : Fields → ℕ → Option Json × ℕ
echo message n = (some (obj message), suc n)

serve_stdio_bounded-answer_lines_example :
    serve_stdio_bounded runtime (λ t. true) (λ t. "") echo 1024 "{a}\n \n{b}" 0
    ≡ ok (answer_lines runtime (λ t. true) (λ t. "") echo 1024 (lines_of "{a}\n \n{b}") 0)
serve_stdio_bounded-answer_lines_example =
    serve_stdio_bounded-answer_lines runtime (λ t. true) (λ t. "") echo 1024 "{a}\n \n{b}" 0
      (omega arith)

two_responses :
    answer_lines runtime (λ t. true) (λ t. "") echo 1024 (lines_of "{a}\n \n{b}") 0
    ≡ (obj (field "line" (text "{a}") end) ∷ obj (field "line" (text "{b}") end) ∷ [], 2)
unfolding answer_lines answer_line respond respond_json emit lines_of onto_line is_empty strip
two_responses = refl

abbrev message : Fields
message = field "id" (text "1") (
    field "method" (text "tools/call") (
      field "params"
        (obj (field "name" (text "apply_edit") (field "arguments" (obj edit_args) end))) end))

abbrev limiter : ActionLimiter
limiter = record {
  requests_per_minute = 1;
  max_concurrent = 1;
  queue_seconds = 0;
  times = [];
  free_slots = 1;
}

handle-IsGated_example :
    IsGated server 5 message world limiter (left (handle server 5 message world limiter))
handle-IsGated_example = handle-IsGated server 5 message world limiter

handle-Responds_example : Responds (id_of message) (handle server 5 message world limiter).0
handle-Responds_example = handle-Responds server 5 message world limiter
