-- ===== src/Runtime/Executor/Samples.antt =====
-- A block that returns at once, and one that yields.
use mathlib.Core.Option.{none-ne-some}
use python_flow_hub.Prelude.{String, ◌≡◌, ◌≢◌, sym, ap, refl, true, none, [], ◌∷◌, lookup, ok}
use python_flow_hub.Value.{text, null}
use python_flow_hub.Runtime.Executor.{
  Code, callable, Raised, yields, stops, value, Generator, generator, EntryFn, function,
  generator_function, Report, chunk, result, execute_user_code, execute_user_code_stream,
  report_entry, report_call, report_raised, stream_entry, stream_call, stream_start,
  stream_from_generator,
}
use python_flow_hub.Runtime.Executor.Agree.{to_value, Agrees, execute_user_code-Agrees}

abbrev block_error : String → Raised
block_error message = record {
  message = message;
  traceback = λ frame. "";
  is_block_error = true;
  is_exception = true;
}

abbrev entry : EntryFn → Code
entry f = record {
  syntax_error = none;
  body = record { stdout = "loaded;"; stderr = ""; outcome = ok (("run", callable f) ∷ []) };
}

abbrev greet : Code
greet =
    entry
      (function (λ d. record { stdout = "hi"; stderr = ""; outcome = ok (value (text "done")) }))

abbrev count_up : Code
count_up = entry (
    generator_function (λ d. record {
      stdout = "";
      stderr = "";
      outcome = ok (yields "1" "" (text "one") (yields "2" "" (text "two") (stops "" "" null)));
    }))

abbrev greeted : Report
greeted = record { output = value (text "done"); stdout = "loaded;hi"; stderr = ""; error = none }

program : Unit {0}
unfolding execute_user_code execute_user_code_stream report_entry report_call report_raised
    stream_entry stream_call stream_start stream_from_generator lookup
program = tt

greet_lem : execute_user_code greet [] "" ≡ ok greeted
unfolding program
greet_lem = refl

count_up_lem :
    (execute_user_code_stream block_error count_up [] "run").events
    ≡ chunk (text "one")
      ∷ chunk (text "two")
      ∷ result (record { output = value null; stdout = "loaded;12"; stderr = ""; error = none })
      ∷ []
unfolding program
count_up_lem = refl

greeted-whole : (g : Generator) → value (text "done") ≢ generator g
greeted-whole g e = absurd (none-ne-some (text "done") (sym (ap to_value e)))

execute_user_code-Agrees_example :
    Agrees greeted greeted-whole (execute_user_code_stream block_error greet [] "")
execute_user_code-Agrees_example =
    execute_user_code-Agrees greeted greeted-whole block_error greet [] "" greet_lem
