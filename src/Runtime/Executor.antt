-- ===== src/Runtime/Executor.antt =====
-- pyflow_runtime/executor.py: running the user's code, at once or as a stream of events. The code
-- itself is a parameter: what its parts print, return, raise and yield. A generator is finite.
pub mod Stream
pub mod Agree
pub mod Samples
use Prim.Native.String.{◌++◌}
use python_flow_hub.Prelude.{
  String, Bool, true, false, Option, none, some, List, [], ◌∷◌, Dict, lookup, if◌then◌else◌, ◌==◌,
  Result, ok, err,
}
use python_flow_hub.Value.{Value, null}

-- Where an exception is caught, which `traceback.format_exc()` names.
pub data Frame : Type 0 where
  at_once loading calling advancing : Frame

-- An exception: `str(exc)`, `traceback.format_exc()` at the place where it is caught, and if it is a
-- `BlockExecutionError`, and an `Exception` at all (`SystemExit` is none).
pub record Raised : Type 0 where
  pub message : String
  pub traceback : Frame → String
  pub is_block_error : Bool
  pub is_exception : Bool

-- What a piece of the user's code prints, and how it ends.
pub record Ran (A : Type 0) : Type 0 where
  pub stdout : String
  pub stderr : String
  pub outcome : Result Raised A

-- A generator, by what each `next` prints and gives.
pub data Generator : Type 0 where
  yields : String → String → Value → Generator → Generator
  stops : String → String → Value → Generator
  raises : String → String → Raised → Generator

-- A Python object that is no JSON value: a set, a dictionary with other keys than texts, and so on.
pub record Object : Type 0 where
  pub repr : String
  pub is_dict : Bool

pub data Returned : Type 0 where
  value : Value → Returned
  generator : Generator → Returned
  object : Object → Returned

-- A generator function, when it is called, gives a generator, or raises if the arguments do not fit.
pub data EntryFn : Type 0 where
  function : (Dict Value → Ran Returned) → EntryFn
  generator_function : (Dict Value → Ran Generator) → EntryFn

abbrev pub started : Result Raised Generator → Result Raised Returned
started (ok g) = ok (generator g)
started (err r) = err r

-- `entry_fn(inputs)`
abbrev pub call : EntryFn → Dict Value → Ran Returned
call (function f) inputs = f inputs
call (generator_function f) inputs = record {
  stdout = (f inputs).stdout;
  stderr = (f inputs).stderr;
  outcome = started (f inputs).outcome;
}

pub data Global : Type 0 where
  callable : EntryFn → Global
  other : Global

-- `syntax_error` is what `compile` raises.
pub record Code : Type 0 where
  pub syntax_error : Option String
  pub body : Ran (Dict Global)

pub record Report : Type 0 where
  pub output : Returned
  pub stdout : String
  pub stderr : String
  pub error : Option String

abbrev pub none_output : Returned
none_output = value null

abbrev pub or_default : String → String
or_default entrypoint = if entrypoint == "" then "run" else entrypoint

abbrev pub find_entry : String → Dict Global → Option EntryFn
find_entry entrypoint namespace = elim (lookup entrypoint namespace) [
  | none ↦ none
  | some other ↦ none
  | some (callable f) ↦ some f
]

abbrev pub must_define : String → String
must_define entrypoint = "block code must define `def " ++ (entrypoint ++ "(inputs): ...`")

abbrev pub failure : Frame → String → String → Raised → Report
failure frame out er r = record {
  output = none_output;
  stdout = out;
  stderr = er ++ r.traceback frame;
  error = some r.message;
}

abbrev pub success : String → String → Returned → Report
success out er v = record { output = v; stdout = out; stderr = er; error = none }

-- What leaves `execute_user_code`.
pub data Escaped : Type 0 where
  block_execution_error : String → Escaped
  base_exception : Raised → Escaped

-- A `BlockExecutionError` is raised again; any other `Exception` is reported.
unfoldable pub report_raised : String → String → Raised → Result Escaped Report
report_raised out er r =
    if r.is_block_error
    then err (block_execution_error r.message)
    else if r.is_exception
    then ok (failure at_once out er r)
    else err (base_exception r)

unfoldable pub report_call : String → String → Ran Returned → Result Escaped Report
unfolding report_raised
report_call out er ran = elim ran.outcome [
  | ok v ↦ ok (success (out ++ ran.stdout) (er ++ ran.stderr) v)
  | err r ↦ report_raised (out ++ ran.stdout) (er ++ ran.stderr) r
]

unfoldable pub report_entry :
    String → String → String → Dict Value → Option EntryFn → Result Escaped Report
unfolding report_call
report_entry entrypoint out er inputs none = err (block_execution_error (must_define entrypoint))
report_entry entrypoint out er inputs (some f) = report_call out er (call f inputs)

-- `execute_user_code`
unfoldable pub execute_user_code : Code → Dict Value → String → Result Escaped Report
unfolding report_raised report_entry
execute_user_code code inputs entrypoint = elim code.syntax_error [
  | some message ↦ err (block_execution_error ("block code syntax error: " ++ message))
  | none ↦ elim code.body.outcome [
    | err r ↦ report_raised code.body.stdout code.body.stderr r
    | ok namespace ↦
        report_entry (or_default entrypoint) code.body.stdout code.body.stderr inputs
          (find_entry (or_default entrypoint) namespace)
  ]
]

pub data Event : Type 0 where
  chunk : Value → Event
  result : Report → Event

-- The events, and the exception that leaves the iterator after them, if one does.
pub record Streamed : Type 0 where
  pub events : List Event
  pub escaped : Option Raised

abbrev pub emits : List Event → Streamed
emits events = record { events = events; escaped = none }

-- `except Exception`: the report of it, or the exception goes on.
abbrev pub caught : Frame → String → String → Raised → Streamed
caught frame out er r =
    if r.is_exception
    then emits (result (failure frame out er r) ∷ [])
    else record { events = []; escaped = some r }

abbrev pub after_chunk : Value → Streamed → Streamed
after_chunk v s = record s { events = chunk v ∷ s.events }

-- `_stream_from_generator`
unfoldable pub stream_from_generator : Generator → String → String → Streamed
stream_from_generator (yields o e v rest) out er =
    after_chunk v (stream_from_generator rest (out ++ o) (er ++ e))
stream_from_generator (stops o e v) out er =
    emits (result (success (out ++ o) (er ++ e) (value v)) ∷ [])
stream_from_generator (raises o e r) out er = caught advancing (out ++ o) (er ++ e) r

unfoldable pub stream_call : String → String → Ran Returned → Streamed
unfolding stream_from_generator
stream_call out er ran = elim ran.outcome [
  | err r ↦ caught calling (out ++ ran.stdout) (er ++ ran.stderr) r
  | ok (generator g) ↦ stream_from_generator g (out ++ ran.stdout) (er ++ ran.stderr)
  | ok (value v) ↦ emits (result (success (out ++ ran.stdout) (er ++ ran.stderr) (value v)) ∷ [])
  | ok (object v) ↦ emits (result (success (out ++ ran.stdout) (er ++ ran.stderr) (object v)) ∷ [])
]

-- The call of a generator function stands in no `try`.
unfoldable pub stream_start : String → String → Ran Generator → Streamed
unfolding stream_from_generator
stream_start out er ran = elim ran.outcome [
  | err r ↦ record { events = []; escaped = some r }
  | ok g ↦ stream_from_generator g (out ++ ran.stdout) (er ++ ran.stderr)
]

-- `block_error message` is the exception that the executor raises itself.
unfoldable pub stream_entry :
    (String → Raised) → String → String → String → Dict Value → Option EntryFn → Streamed
unfolding stream_call stream_start
stream_entry block_error entrypoint out er inputs none =
    caught loading out er (block_error (must_define entrypoint))
stream_entry block_error entrypoint out er inputs (some (generator_function f)) =
    stream_start out er (f inputs)
stream_entry block_error entrypoint out er inputs (some (function f)) =
    stream_call out er (f inputs)

unfoldable pub execute_user_code_stream : (String → Raised) → Code → Dict Value → String → Streamed
unfolding stream_entry
execute_user_code_stream block_error code inputs entrypoint = elim code.syntax_error [
  | some message ↦ emits (
      result (record {
        output = none_output;
        stdout = "";
        stderr = "";
        error = some ("block code syntax error: " ++ message);
      })
      ∷ [])
  | none ↦ elim code.body.outcome [
    | err r ↦ caught loading code.body.stdout code.body.stderr r
    | ok namespace ↦
        stream_entry block_error (or_default entrypoint) code.body.stdout code.body.stderr inputs
          (find_entry (or_default entrypoint) namespace)
  ]
]
