-- ===== src/Process/Tests.antt =====
-- A child that writes seven bytes in two chunks, of which four are kept.
use gpthands.Prelude.{true, false, ◌≡◌, [], ◌∷◌, refl, ok, take_chars, is_empty}
use gpthands.Json.{pos}
use gpthands.Process.Defs.{
  Child, BoundedProcessResult, no_output, drain_stdout, run_bounded_process,
}
use gpthands.Process.Output.{all_output, first_bytes, drain_stdout-all_output}

abbrev child : Child
child = record {
  pipe = true;
  in_time = true;
  chunks = "abcd" ∷ "efg" ∷ [];
  drained = true;
  read_failed = false;
  returncode = pos 0;
}

abbrev result : BoundedProcessResult
result = record { returncode = pos 0; stdout = "abcd\n[output truncated by GPTHands policy]" }

returned : run_bounded_process ("git" ∷ []) 30 4 child ≡ ok result
unfolding run_bounded_process drain_stdout is_empty take_chars
returned = refl

drain_stdout-all_output_example :
    drain_stdout 4 no_output ("abcd" ∷ "efg" ∷ [])
    ≡ first_bytes 4 (all_output ("abcd" ∷ "efg" ∷ []))
drain_stdout-all_output_example = drain_stdout-all_output 4 ("abcd" ∷ "efg" ∷ [])
