-- ===== src/Runtime/Executor/Stream.antt =====
-- The events of `execute_user_code_stream` (pyflow_runtime/executor.py).
use python_flow_hub.Prelude.{String, ◌≡◌, none, some, List, [], ◌∷◌, Dict, ◌⊎◌, false, ok, err}
use python_flow_hub.Value.{Value}
use python_flow_hub.Runtime.Executor.{
  Code, Global, Raised, Ran, Generator, generator_function, Report, Event, chunk, result, Streamed,
  find_entry, or_default,
}

-- Chunks, then one report, which is the last event.
pub data EndsOnce : List Event → Type 0 where
  last : (r : Report) → EndsOnce (result r ∷ [])
  more : (v : Value) {events : List Event} → EndsOnce events → EndsOnce (chunk v ∷ events)

pub data OnlyChunks : List Event → Type 0 where
  nothing : OnlyChunks []
  another : (v : Value) {events : List Event} → OnlyChunks events → OnlyChunks (chunk v ∷ events)

-- The stream ends with its report, or after some chunks with an exception that is no `Exception`.
abbrev pub IsClosed : Streamed → Type 0
IsClosed s =
    (EndsOnce s.events × (s.escaped ≡ none))
    ⊎ ((r : Raised) × (s.escaped ≡ some r) × (r.is_exception ≡ false) × OnlyChunks s.events)

module _ (block_error : String → Raised) (code : Code) (inputs : Dict Value)
    (entrypoint : String) where
  -- The entry point is a generator function, whose call raises `r`.
  abbrev pub FailsAtStart : Raised → Type 0
  FailsAtStart r =
      (namespace : Dict Global) × (f : Dict Value → Ran Generator) × (code.body.outcome
        ≡ ok namespace)
      × (find_entry (or_default entrypoint) namespace ≡ some (generator_function f))
      × ((f inputs).outcome ≡ err r)

  abbrev pub IsWhole : Streamed → Type 0
  IsWhole s = IsClosed s ⊎ ((r : Raised) × (s.escaped ≡ some r) × (s.events ≡ []) × FailsAtStart r)
