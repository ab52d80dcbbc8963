-- ===== src/Runtime/Executor/Agree.antt =====
-- The stream of a block that yields nothing against the run of it at once
-- (pyflow_runtime/executor.py).
use Prim.Native.String.{◌++◌}
use mathlib.Core.Option.{none-ne-some}
use python_flow_hub.Prelude.{
  String, ◌≡◌, ◌≢◌, refl, Bool, if◌then◌else◌, subst, Option, none, some, [], ◌∷◌, Dict, ◌⊎◌, inl,
  inr, Result, ok, err, Result-cases, Option-cases, Bool-cases, sym, ◌∙◌, ap,
}
use python_flow_hub.Value.{Value}
use python_flow_hub.Runtime.Executor.{
  Code, Global, Frame, at_once, loading, calling, caught, object, Escaped, block_execution_error,
  Raised, Ran, Generator, Returned, value, generator, EntryFn, function, generator_function, call,
  started, Report, result, Streamed, emits, failure, success, find_entry, or_default, stream_call,
  stream_start, stream_entry, execute_user_code_stream, execute_user_code, report_entry,
  report_call, report_raised,
}

abbrev to_option {ℓ} : {E : Type 0} {A : Type ℓ} → Result E A → Option A
to_option (ok a) = some a
to_option (err e) = none

abbrev or_else : Report → Result Escaped Report → Report
or_else d (ok r) = r
or_else d (err e) = d

abbrev pub to_value : Returned → Option Value
to_value (value v) = some v
to_value (generator g) = none
to_value (object v) = none

-- Two reports of the same thing: they are the same, or they tell of the same exception, after the
-- same texts, and differ at most in the frame that its traceback names.
pub data SameReport : Report → Report → Type 0 where
  same : (r : Report) → SameReport r r
  but_traceback :
      (frame frame' : Frame) (out er : String) (x : Raised)
      → SameReport (failure frame out er x) (failure frame' out er x)

-- The stream is one event with that report.
abbrev pub IsReported : Report → Streamed → Type 0
IsReported r s = (r' : Report) × (s ≡ emits (result r' ∷ [])) × SameReport r r'

raised_as :
    (frame : Frame) (out er : String) (x : Raised) (r : Report)
    → report_raised out er x ≡ ok r
    → IsReported r (caught frame out er x)
unfolding report_raised
raised_as frame out er x r h = elim (Bool-cases x.is_block_error) [
  | inl block ↦ absurd (none-ne-some r (ap to_option (rw block at h)))
  | inr other ↦ elim (Bool-cases x.is_exception) [
    | inr foreign ↦ absurd (none-ne-some r (ap to_option (rw (other, foreign) at h)))
    | inl known ↦
        let told : failure at_once out er x ≡ r = ap (or_else r) (rw (other, known) at h) in
        (
          failure frame out er x,
          ap
              (λ (b : Bool).
                if b
                then emits (result (failure frame out er x) ∷ [])
                else record { events = []; escaped = some x })
              known,
          subst (λ (y : Report). SameReport y (failure frame out er x)) told
              (but_traceback at_once frame out er x),
        )
  ]
]

only_failure :
    (out er : String) (x : Raised) (r : Report)
    → report_raised out er x ≡ ok r
    → r ≡ failure at_once out er x
unfolding report_raised
only_failure out er x r h = elim (Bool-cases x.is_block_error) [
  | inl block ↦ absurd (none-ne-some r (ap to_option (rw block at h)))
  | inr other ↦ elim (Bool-cases x.is_exception) [
    | inr foreign ↦ absurd (none-ne-some r (ap to_option (rw (other, foreign) at h)))
    | inl known ↦ sym (ap (or_else r) (rw (other, known) at h))
  ]
]

as_stream : (a r : Report) → a ≡ r → IsReported r (emits (result a ∷ []))
as_stream a r e = (r, ap (λ (x : Report). emits (result x ∷ [])) e, same r)

abbrev reported : Report → Result Escaped Report
reported r = ok r

ok_as : {a b : Report} → reported a ≡ reported b → a ≡ b
ok_as {a} e = ap (or_else a) e

report_err :
    (out er : String) (ran : Ran Returned) (x : Raised)
    → ran.outcome ≡ err x
    → report_call out er ran ≡ report_raised (out ++ ran.stdout) (er ++ ran.stderr) x
unfolding report_call
report_err out er ran x e = rw (e, report_call)

report_ok :
    (out er : String) (ran : Ran Returned) (u : Returned)
    → ran.outcome ≡ ok u
    → report_call out er ran ≡ ok (success (out ++ ran.stdout) (er ++ ran.stderr) u)
unfolding report_call
report_ok out er ran u e = rw (e, report_call)

module _ (code : Code) (inputs : Dict Value) (entrypoint : String) where
  run_syntax :
      (message : String)
      → code.syntax_error ≡ some message
      → execute_user_code code inputs entrypoint
        ≡ err (block_execution_error ("block code syntax error: " ++ message))
  unfolding execute_user_code
  run_syntax message e = rw (e, execute_user_code)

  run_raised :
      (x : Raised)
      → code.syntax_error ≡ none
      → code.body.outcome ≡ err x
      → execute_user_code code inputs entrypoint ≡ report_raised code.body.stdout code.body.stderr x
  unfolding execute_user_code
  run_raised x e e' = rw (e, execute_user_code) (rw (e', execute_user_code))

  run_entry :
      (namespace : Dict Global)
      → code.syntax_error ≡ none
      → code.body.outcome ≡ ok namespace
      → execute_user_code code inputs entrypoint
        ≡ report_entry
            (or_default entrypoint)
            code.body.stdout
            code.body.stderr
            inputs
            (find_entry (or_default entrypoint) namespace)
  unfolding execute_user_code
  run_entry namespace e e' = rw (e, execute_user_code) (rw (e', execute_user_code))

module _ (r : Report) (whole : (g : Generator) → r.output ≢ generator g) where
  call_as :
      (out er : String) (ran : Ran Returned)
      → report_call out er ran ≡ ok r
      → IsReported r (stream_call out er ran)
  unfolding report_call stream_call
  call_as out er ran h = elim (Result-cases ran.outcome) [
    | inr (x, e) ↦
        rw (e, stream_call)
          (raised_as calling (out ++ ran.stdout) (er ++ ran.stderr) x r
            (sym (report_err out er ran x e) ∙ h))
    | inl (value u, e) ↦
        rw (e, stream_call) (as_stream _ r (ok_as (sym (report_ok out er ran (value u) e) ∙ h)))
    | inl (object u, e) ↦
        rw (e, stream_call) (as_stream _ r (ok_as (sym (report_ok out er ran (object u) e) ∙ h)))
    | inl (generator g, e) ↦ absurd (
        whole g (
          sym (
            ap (λ (x : Report). x.output)
              (ok_as (sym (report_ok out er ran (generator g) e) ∙ h)))))
  ]

  -- The stream is that report alone, or the call of a generator function raised what it reports.
  abbrev pub Agrees : Streamed → Type 0
  Agrees s =
      IsReported r s
      ⊎ ((x : Raised) × (out : String) × (er : String) × (s.events ≡ [])
          × (s.escaped ≡ some x)
          × (r ≡ failure at_once out er x))

  start_as :
      (out er : String) (f : Dict Value → Ran Generator) (inputs : Dict Value)
      → report_call out er (call (generator_function f) inputs) ≡ ok r
      → Agrees (stream_start out er (f inputs))
  unfolding stream_start
  start_as out er f inputs h = elim (Result-cases (f inputs).outcome) [
    | inr (x, e) ↦
        let ran = call (generator_function f) inputs in
        let told =
          only_failure (out ++ ran.stdout) (er ++ ran.stderr) x r
            (sym (report_err out er ran x (ap started e)) ∙ h) in
        rw (e, stream_start) (inr (x, out ++ ran.stdout, er ++ ran.stderr, refl, refl, told))
    | inl (g, e) ↦ absurd (
        whole g (
          sym (
            ap (λ (x : Report). x.output)
              (ok_as (
                sym (
                  report_ok out er (call (generator_function f) inputs) (generator g)
                    (ap started e))
                ∙ h)))))
  ]

  module _ (block_error : String → Raised) where
    entry_as :
        (entrypoint out er : String) (inputs : Dict Value) (f : Option EntryFn)
        → report_entry entrypoint out er inputs f ≡ ok r
        → Agrees (stream_entry block_error entrypoint out er inputs f)
    unfolding report_entry stream_entry
    entry_as entrypoint out er inputs none h = absurd (none-ne-some r (ap to_option h))
    entry_as entrypoint out er inputs (some (function f)) h = inl (call_as out er (f inputs) h)
    entry_as entrypoint out er inputs (some (generator_function f)) h = start_as out er f inputs h

    -- If a block that is run at once is reported as `r`, and its output is no generator, then the
    -- stream of the block is one event with that report, but for the frame that the traceback of an
    -- exception names; or the call of the generator function raised the exception that is
    -- reported, and it leaves the iterator before any event.
    pub execute_user_code-Agrees :
        (code : Code) (inputs : Dict Value) (entrypoint : String)
        → execute_user_code code inputs entrypoint ≡ ok r
        → Agrees (execute_user_code_stream block_error code inputs entrypoint)
    unfolding execute_user_code_stream
    execute_user_code-Agrees code inputs entrypoint h = elim (Option-cases code.syntax_error) [
      | inr (message, e) ↦
          absurd
            (none-ne-some r (ap to_option (sym (run_syntax code inputs entrypoint message e) ∙ h)))
      | inl e ↦ elim (Result-cases code.body.outcome) [
        | inr (x, e') ↦
            rw (e, execute_user_code_stream)
              (rw (e', execute_user_code_stream)
                (inl (
                  raised_as loading code.body.stdout code.body.stderr x r
                    (sym (run_raised code inputs entrypoint x e e') ∙ h))))
        | inl (namespace, e') ↦
            rw (e, execute_user_code_stream)
              (rw (e', execute_user_code_stream)
                (entry_as (or_default entrypoint) code.body.stdout code.body.stderr inputs
                  (find_entry (or_default entrypoint) namespace)
                  (sym (run_entry code inputs entrypoint namespace e e') ∙ h)))
      ]
    ]
