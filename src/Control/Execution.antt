-- ===== src/Control/Execution.antt =====
-- `execute_block_stream` (backend/app/core/execution_service.py): the events that it yields, the record
-- that it leaves, and the lines that it publishes.
pub mod Samples
use python_flow_hub.Prelude.{
  String, ◌≡◌, ◌≢◌, ◌↔◌, map, Dict, Bool, true, false, not, Option, none, some, List, [], ◌∷◌, ◌++◌,
  ◌==◌, if◌then◌else◌, ◌⊎◌,
}
use python_flow_hub.Value.{Value, text, dict, fields, entries}
use python_flow_hub.Runtime.Executor.{
  Event, chunk, result, Report, Returned, value, generator, object, none_output,
}

pub data Status : Type 0 where
  running failed success : Status

-- A dictionary is recorded as it is, and anything else under "value".
pub data Recorded : Type 0 where
  as_it_is : Dict Value → Recorded
  under_value : Returned → Recorded

abbrev pub wrapped_value : Value → Recorded
wrapped_value Value.null = under_value (value Value.null)
wrapped_value (Value.bool b) = under_value (value (Value.bool b))
wrapped_value (Value.num n) = under_value (value (Value.num n))
wrapped_value (text s) = under_value (value (text s))
wrapped_value (Value.list xs) = under_value (value (Value.list xs))
wrapped_value (dict fs) = as_it_is (entries fs)

abbrev pub wrapped : Returned → Recorded
wrapped (value v) = wrapped_value v
wrapped (generator g) = under_value (generator g)
wrapped (object o) = under_value (object o)

-- The columns that the execution sets.
pub record ExecutionRecord : Type 0 where
  pub status : Status
  pub output : Option Recorded
  pub stdout : String
  pub stderr : String

pub data Channel : Type 0 where
  to_stdout to_control : Channel

-- What was yielded, published and recorded.
pub record Executed : Type 0 where
  pub events : List Event
  pub lines : List (String × Channel)
  pub row : ExecutionRecord

abbrev or_blank : Option String → String
or_blank none = ""
or_blank (some s) = s

abbrev pub is_error : Option String → Bool
is_error none = false
is_error (some message) = not (message == "")

abbrev pub status_of : Option String → Status
status_of error = if is_error error then failed else success

abbrev pub new_record : ExecutionRecord
new_record = record { status = running; output = none; stdout = ""; stderr = "" }

-- The `async for` loop: the chunks are passed on at once.
unfoldable pub chunks : List Event → List Event
chunks [] = []
chunks (chunk v ∷ events) = chunk v ∷ chunks events
chunks (result r ∷ events) = chunks events

-- The last event that is no chunk.
unfoldable pub result_event : List Event → Option Report → Option Report
result_event [] found = found
result_event (chunk v ∷ events) found = result_event events found
result_event (result r ∷ events) found = result_event events (some r)

abbrev pub error_report : String → Report
error_report detail = record {
  output = none_output;
  stdout = "";
  stderr = detail;
  error = some detail;
}

-- `detail` is what the exception of the stream says, cut to its length.
abbrev pub out_event : (detail : Option String) → Option Report → Report
out_event (some detail) found = error_report detail
out_event none none = error_report "no result emitted by stream"
out_event none (some r) = r

abbrev pub recorded : (detail : Option String) → Option Report → ExecutionRecord
recorded (some detail) found = record new_record { status = failed; stderr = detail }
recorded none none = record new_record { status = failed; stderr = "no result emitted by stream" }
recorded none (some r) = record {
  status = status_of r.error;
  output = some (wrapped r.output);
  stdout = r.stdout;
  stderr = r.stderr;
}

-- `dumps` is `json.dumps(data, default=str)`.
module _ (dumps : Value → String) where
  abbrev pub line_of : Value → String
  line_of (text s) = s
  line_of v = dumps v

  unfoldable pub chunk_lines : List Event → List (String × Channel)
  chunk_lines [] = []
  chunk_lines (chunk v ∷ events) = (line_of v, to_stdout) ∷ chunk_lines events
  chunk_lines (result r ∷ events) = chunk_lines events

  -- The stream of the sandbox gives its events, and then ends or raises.
  unfoldable pub execute_block_stream : List Event → (detail : Option String) → Executed
  unfolding chunks result_event chunk_lines
  execute_block_stream events detail =
      let found = result_event events none in
      record {
        events = chunks events ++ result (out_event detail found) ∷ [];
        lines = chunk_lines events ++ ("__PYFLOW_DONE__", to_control) ∷ [];
        row = recorded detail found;
      }

  -- The events of a stream that gave some chunks, and then a report or none.
  abbrev pub stream_of : List Value → Option Report → List Event
  stream_of [] none = []
  stream_of [] (some r) = result r ∷ []
  stream_of (v ∷ values) found = chunk v ∷ stream_of values found

  -- The report says what went wrong.
  abbrev pub IsError : Report → Type 0
  IsError r = (message : String) × (r.error ≡ some message) × (message ≢ "")

  -- The report that the caller gets, by how the stream ended: what the exception says, that there
  -- was no report, or the stream's own report.
  abbrev pub IsLast : (detail : Option String) → (found : Option Report) → Report → Type 0
  IsLast (some detail) found last = (last.error ≡ some detail) × (last.stderr ≡ detail)
  IsLast none none last = last.error ≡ some "no result emitted by stream"
  IsLast none (some r) last = last ≡ r

  -- The record of it.
  abbrev pub IsRecorded :
      (detail : Option String) → (found : Option Report) → ExecutionRecord → Type 0
  IsRecorded (some detail) found row = (row.output ≡ none) × (row.stderr ≡ detail)
  IsRecorded none none row = (row.output ≡ none) × (row.stderr ≡ "no result emitted by stream")
  IsRecorded none (some r) row =
      ((fs : Dict Value) → r.output ≡ value (dict (fields fs)) → row.output ≡ some (as_it_is fs))
      × (row.stdout ≡ r.stdout)
      × (row.stderr ≡ r.stderr)

  -- What an execution leaves, of a stream that gave the chunks `values`.
  pub record IsSettled (values : List Value) (found : Option Report) (detail : Option String)
      (done : Executed) : Type 0 where
    pub last : Report
    pub events : done.events ≡ map chunk values ++ result last ∷ []
    pub is_last : IsLast detail found last
    pub ended : (done.row.status ≡ success) ⊎ (done.row.status ≡ failed)
    pub is_failed : (done.row.status ≡ failed) ↔ IsError last
    pub row : IsRecorded detail found done.row
    pub lines :
        done.lines
        ≡ map (λ v. (line_of v, to_stdout)) values ++ ("__PYFLOW_DONE__", to_control) ∷ []
