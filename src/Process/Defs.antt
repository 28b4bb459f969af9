-- ===== src/Process/Defs.antt =====
-- `run_bounded_process` of src/gpthands/process_control.py. Bytes are held as texts.
use gpthands.Prelude.{
  ℕ, ◌-◌, String, ◌<>◌, Bool, true, false, not, List, [], ◌∷◌, leb, ltb, if◌then◌else◌, is_empty,
  take_chars, count, process_error, ok, ◌>>◌,
}
use gpthands.Prelude.Errors.{Result, require}
use gpthands.Json.{ℤ}

-- What `drain_stdout` has kept, and whether it has dropped anything.
pub record Captured : Type 0 where
  pub kept : String
  pub truncated : Bool

-- The loop of `drain_stdout` over the chunks that the pipe yields; an empty one ends it.
unfoldable pub drain_stdout : ℕ → Captured → List String → Captured
drain_stdout limit c [] = c
drain_stdout limit c (chunk ∷ chunks) =
    let remaining = limit - count c.kept in
    let rest =
      drain_stdout limit
        (record {
          kept = c.kept <> take_chars remaining chunk;
          truncated = if ltb remaining (count chunk) then true else c.truncated;
        })
        chunks in
    if is_empty chunk then c else rest

-- The child as the operating system shows it: whether the pipe was made, the child ended in time, the
-- reader ended after the process tree was killed, and a read raised.
pub record Child : Type 0 where
  pub pipe : Bool
  pub in_time : Bool
  pub chunks : List String
  pub drained : Bool
  pub read_failed : Bool
  pub returncode : ℤ

pub record BoundedProcessResult : Type 0 where
  pub returncode : ℤ
  pub stdout : String

abbrev pub marker : String
marker = "\n[output truncated by GPTHands policy]"

abbrev pub no_output : Captured
no_output = record { kept = ""; truncated = false }

abbrev pub no_words : List String → Bool
no_words [] = true
no_words (word ∷ words) = false

unfoldable pub run_bounded_process : List String → ℕ → ℕ → Child → Result BoundedProcessResult
run_bounded_process argv timeout max_output_bytes child = do
  require (not (no_words argv)) process_error "empty process argv"
  require (leb 1 timeout) process_error "timeout must be positive"
  require (leb 1 max_output_bytes) process_error "max_output_bytes must be positive"
  require child.pipe process_error "process stdout pipe was not created"
  require child.in_time process_error "command exceeded its timeout; process tree terminated"
  require child.drained process_error "stdout drain did not terminate after process-tree cleanup"
  require (not child.read_failed) process_error "stdout capture failed"
  ok (
      let captured = drain_stdout max_output_bytes no_output child.chunks in
      record {
        returncode = child.returncode;
        stdout = captured.kept <> (if captured.truncated then marker else "");
      })
