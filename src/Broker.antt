-- ===== src/Broker.antt =====
-- The consumers of a flow's queue: what they publish and acknowledge. The pod of the runner
-- (runner/entrypoint.py) and the local consumer of the control plane
-- (backend/app/core/mq/consumer_manager.py) share these commands.
pub mod Runner
pub mod Manager
pub mod Samples
use python_flow_hub.Prelude.{
  ℕ, suc, ◌≡◌, String, Bool, Option, none, some, List, [], ◌∷◌, ◌++◌, Dict, insert, if◌then◌else◌,
  Result, ok, err,
}
use python_flow_hub.Value.{Value, num, pos, text, truthy, get_value}
use python_flow_hub.Runtime.Errors.{Error, raised}

-- What `json.loads(body.decode("utf-8"))` gives.
-- A body that is JSON but no dictionary is left out.
pub data Decoded : Type 0 where
  not_utf8 not_json : Decoded
  parsed : Dict Value → Decoded

-- Python's own functions on texts and numbers. `int` of a value is `none` where it raises.
-- A negative number is not a count.
pub record Codec : Type 0 where
  pub decode : String → Decoded
  pub int : Value → Option ℕ
  pub str : ℕ → String
  pub int-str : (n : ℕ) → int (text (str n)) ≡ some n
  pub str-truthy : (n : ℕ) → truthy (text (str n)) ≡ Bool.true
  pub str-zero : str 0 ≡ "0"

-- An incoming message; a message without headers has none.
pub record Message : Type 0 where
  pub body : String
  pub headers : Dict Value
  pub message_id : Option String

-- A copy that is published to a queue.
pub record Copy : Type 0 where
  pub routing_key : String
  pub body : String
  pub headers : Dict Value

pub data Effect : Type 0 where
  published : Copy → Effect
  acked : Effect

-- The state that the handling of a message changes, and what was sent to the broker.
pub record Desk (S : Type 0) : Type 0 where
  pub inner : S
  pub effects : List Effect

abbrev pub Act : Type 0 → Type 0 → Type 0
Act S A = Desk S → Result Error A × Desk S

abbrev pub continue : {S A B : Type 0} → Result Error A → (A → Act S B) → Act S B
continue (ok a) f d = f a d
continue (err e) f d = (err e, d)

infixl 5 ◌>>=◌ ◌>>◌
abbrev pub ◌>>=◌ : {S A B : Type 0} → Act S A → (A → Act S B) → Act S B
◌>>=◌ m f d = continue (m d).0 f (m d).1

abbrev pub ◌>>◌ : {S B : Type 0} → Act S (Unit {0}) → Act S B → Act S B
m >> k = m >>= λ _. k

-- A command to the broker, which raises if the connection is down. `up` says when.
unfoldable pub emit : {S : Type 0} → (List Effect → Bool) → Effect → Act S (Unit {0})
emit up e d =
    if up d.effects
    then (ok tt, record d { effects = d.effects ++ e ∷ [] })
    else (err (raised "ConnectionError"), d)

-- `int(headers.get("x-retry-count", 0) or 0)`
unfoldable pub retry_count : Codec → Dict Value → Option ℕ
retry_count codec headers =
    if truthy (get_value "x-retry-count" (num (pos 0)) headers)
    then codec.int (get_value "x-retry-count" (num (pos 0)) headers)
    else some 0

-- The headers of the next attempt.
unfoldable pub with_retry_count : Codec → ℕ → Dict Value → Dict Value
with_retry_count codec n headers = insert "x-retry-count" (text (codec.str n)) headers

abbrev pub republish :
    {S : Type 0} → (List Effect → Bool) → String → String → Dict Value → Act S (Unit {0})
republish up routing_key body headers =
    emit up (published (record { routing_key = routing_key; body = body; headers = headers }))
