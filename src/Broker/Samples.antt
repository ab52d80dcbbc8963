-- ===== src/Broker/Samples.antt =====
-- A queue whose counts are written with strokes, and what its consumers do with a few messages.
use Prim.Native.Char.{code}
use python_flow_hub.Prelude.{
  ℕ, zero, suc, ◌+◌, ◌-◌, ◌≤◌, String, ◌≡◌, refl, ap, true, false, eqb, Option, none, some, [], ◌∷◌,
  lookup, if◌then◌else◌, ◌==◌, eq_iff, ok, err, Bool-cases, inl, inr, ◌⊎◌, arith,
}
use python_flow_hub.Value.{Value, null, num, pos, text, truthy}
use python_flow_hub.Runtime.Errors.{Error, raised}
use python_flow_hub.Runtime.Engines.{Engines}
use python_flow_hub.Runtime.Messages.{protocol_compatible}
use python_flow_hub.Consumer.{MqConfig, ack, backoff, nack}
use python_flow_hub.Broker.{Codec, parsed, Message, retry_count}
use python_flow_hub.Broker.Runner.{Consume, on_message}
use python_flow_hub.Broker.Runner.Accounts.{Accounts, IsFinished, on_message-Accounts}
use python_flow_hub.Broker.Runner.Plan.{always, fresh}
use python_flow_hub.Broker.Runner.Retries.{
  Reads, attempts, Fails, IsArchived, attempts-le, attempts-IsArchived,
}
use python_flow_hub.Broker.Manager.{Tally, consume_one}
use python_flow_hub.Broker.Manager.Parity.{consume_one-on_message}
use python_flow_hub.Broker.Manager.Degraded.{
  Execute, Ended, IsRun, exec_without_idempotency, IsMet, IsUnmet, IsFailed,
  exec_without_idempotency_lem,
}
use python_flow_hub.Broker.Manager.Requeue.{
  requeue_dlq, requeued, requeued_copy, moved_to, requeue_dlq-requeued,
}

-- n strokes and a "0".
abbrev pub strokes : ℕ → String
strokes zero = "0"
strokes (suc n) = String.◌∷◌ "1" (strokes n)

abbrev pub count_strokes : String → ℕ
count_strokes String.[] = 0
count_strokes (String.◌∷◌ c s) =
    let rest = count_strokes s in if eqb (code c) b'1' then suc rest else 0

pub count_strokes-strokes : (n : ℕ) → count_strokes (strokes n) ≡ n
count_strokes-strokes zero = refl
count_strokes-strokes (suc n) = ap suc (count_strokes-strokes n)

pub strokes-truthy : (n : ℕ) → truthy (text (strokes n)) ≡ true
unfolding truthy
strokes-truthy zero = refl
strokes-truthy (suc n) = elim (Bool-cases (String.◌∷◌ "1" (strokes n) == "")) [
  | inr other ↦ rw other
  | inl same ↦
      absurd (omega (arith, ap count_strokes ((eq_iff (String.◌∷◌ "1" (strokes n)) "").0 same)))
]

abbrev pub int_of : Value → Option ℕ
int_of (Value.text s) = some (count_strokes s)
int_of (Value.num (pos n)) = some n
int_of v = none

pub int_of-strokes : (n : ℕ) → int_of (text (strokes n)) ≡ some n
int_of-strokes n = ap some (count_strokes-strokes n)

abbrev pub codec : Codec
codec = record {
  decode = λ s. parsed [];
  int = int_of;
  str = strokes;
  int-str = int_of-strokes;
  str-truthy = strokes-truthy;
  str-zero = refl;
}

abbrev engines : Engines
engines = record {
  jmespath_search = λ e p. some null;
  jsonpath_find = λ e p. none;
  str = λ v. "0";
  body_digest = λ d. "digest";
  format_map = λ t f. none;
}

abbrev message : Message
message = record { body = "{}"; headers = []; message_id = some "m" }

-- The state counts the handlings.
abbrev failing : Consume ℕ
failing body count id s = (ok nack, s + 1)

abbrev waiting : Consume ℕ
waiting body count id s = (ok backoff, s + 1)

abbrev raising : Consume ℕ
raising body count id s = (err (raised "boom"), s + 1)

message-Reads : Reads codec engines message 0 []
unfolding retry_count protocol_compatible lookup truthy
message-Reads = record { fits = refl; counted = refl; readable = refl }

on_message-Accounts_example :
    Accounts message
      (IsFinished codec engines always "f" 2 failing message 0)
      []
      (on_message codec engines always "f" 2 failing message (fresh 0)).1.effects
on_message-Accounts_example =
    on_message-Accounts codec engines always "f" 2 failing message (fresh 0)

attempts-le_example : (attempts codec engines "f" 2 failing 9 message 0).0 ≤ suc (2 - 0)
attempts-le_example = attempts-le codec engines "f" 2 failing 9 message 0 [] 0 message-Reads

failing-Fails : Fails codec engines "f" 2 failing
failing-Fails body count id s = refl

attempts-IsArchived_example :
    ((attempts codec engines "f" 2 failing 3 message 0).0 ≡ suc (2 - 0))
    × IsArchived codec engines "f" 2 failing message
        (attempts codec engines "f" 2 failing 3 message 0).1
attempts-IsArchived_example =
    attempts-IsArchived codec engines "f" 2 failing failing-Fails 3 message 0 [] 0 message-Reads
      (omega arith)

abbrev new_tally : Tally
new_tally = record { processed = 0; errors = 0; last_error = none }

consume_one-on_message_example :
    (consume_one codec engines always "f"
      (("max_retry", num (pos 2)) ∷ [])
      (λ e. "boom")
      raising
      message
      (fresh 0)
      new_tally).0
    ≡ (on_message codec engines always "f" 2 raising message (fresh 0)).1
unfolding lookup retry_count truthy
consume_one-on_message_example =
    consume_one-on_message codec engines "f" (("max_retry", num (pos 2)) ∷ []) 2 message 0 refl refl
      (λ e. "boom") raising [] 0 new_tally message-Reads

abbrev seven : ℕ
seven = 7

requeue_dlq-requeued_example :
    (requeue_dlq always "f" (message ∷ message ∷ []) 0 (fresh seven)
      ≡ moved_to seven 2 (requeued "f" (message ∷ message ∷ [])))
    × ((m : Message) → retry_count codec (requeued_copy "f" m).headers ≡ some 0)
requeue_dlq-requeued_example = requeue_dlq-requeued codec "f" (message ∷ message ∷ []) seven

-- The state counts the runs of the flow.
abbrev counting : Execute ℕ
counting inputs s = (ok (text "done"), s + 1)

abbrev plain_config : MqConfig
plain_config = record {
  condition_expression = none;
  condition_language = none;
  input_mapping = none;
  reply_enabled = false;
  carry_fields = [];
}

abbrev degraded : Ended ℕ
degraded = exec_without_idempotency engines counting none plain_config [] (some "m") 0

exec_without_idempotency_example :
    (IsUnmet engines counting none plain_config [] (some "m")
      × (degraded.action ≡ ack)
      × (degraded.state ≡ 0))
    ⊎ (IsMet engines counting none plain_config [] (some "m")
        × (degraded.action ≡ ack)
        × IsRun engines counting none plain_config [] (some "m") 0 degraded.state)
    ⊎ (IsMet engines counting none plain_config [] (some "m")
        × (degraded.action ≡ nack)
        × (e : Error) × (degraded.error ≡ some e)
        × IsFailed engines counting none plain_config [] (some "m") 0 e degraded.state)
exec_without_idempotency_example =
    exec_without_idempotency_lem engines counting none plain_config [] (some "m") 0
