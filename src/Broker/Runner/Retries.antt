-- ===== src/Broker/Runner/Retries.antt =====
-- How often a message is handled before it is archived (runner/entrypoint.py). The delay queue
-- gives a message back to the main queue when its time is over, with its body and its headers; see
-- Runtime.Queues.
use python_flow_hub.Prelude.{
  ℕ, zero, suc, ◌-◌, ◌≤◌, ◌<◌, String, ◌≡◌, ◌≢◌, refl, sym, ◌∙◌, ap, Bool, true, false, ◌||◌,
  Option, none, some, List, [], ◌∷◌, Dict, lookup, insert, lookup-insert, leb, if◌then◌else◌, ◌==◌,
  eq_iff, eq_refl, Result, Bool-cases, inl, inr, ◌⊎◌, arith,
}
use python_flow_hub.Value.{Value, num, pos, text, truthy}
use python_flow_hub.Runtime.Errors.{Error}
use python_flow_hub.Runtime.Engines.{Engines}
use python_flow_hub.Runtime.Messages.{protocol_compatible, is_null}
use python_flow_hub.Runtime.Queues.{dlq_queue, dead_queue, backoff_queue, queue_topology}
use python_flow_hub.Runtime.Queues.Routes.{declare_flow_topology-queue_topology}
use python_flow_hub.Consumer.{Action, ack, backoff, nack}
use python_flow_hub.Broker.{
  Codec, Message, Copy, Effect, published, acked, Desk, retry_count, with_retry_count,
}
use python_flow_hub.Broker.Runner.{Consume, nack_on_error, on_message}
use python_flow_hub.Broker.Runner.Plan.{always, body_of, fresh, plan, copy_to, on_message-plan}

-- A copy as a message: it carries no message id.
abbrev pub redelivered : Copy → Message
redelivered copy = record { body = copy.body; headers = copy.headers; message_id = none }

abbrev pub first_copy : List Effect → Option Copy
first_copy [] = none
first_copy (acked ∷ t) = none
first_copy (published copy ∷ t) = some copy

abbrev pub one_more : ℕ × Option Copy → ℕ × Option Copy
one_more (n, last) = (suc n, last)

module _ {S : Type 0} (codec : Codec) (engines : Engines) (api_id : String) (max_retry : ℕ)
    (consume : Consume S) where
  -- How often a message is handled, as long as it comes back from the delay queue, and the copy
  -- that left it elsewhere.
  unfoldable pub attempts : ℕ → Message → S → ℕ × Option Copy
  attempts zero message s = (0, none)
  attempts (suc fuel) message s =
      let d = (on_message codec engines always api_id max_retry consume message (fresh s)).1 in
      elim (first_copy d.effects) [
        | none ↦ (1, none)
        | some copy ↦
            (let later = attempts fuel (redelivered copy) d.inner in
              if copy.routing_key == dlq_queue api_id then one_more later else (1, some copy))
      ]

abbrev or_zero : Option Value → Value
or_zero none = num (pos 0)
or_zero (some v) = v

-- The count of the next attempt is read back.
pub retry_count-with_retry_count :
    (codec : Codec) (n : ℕ) (headers : Dict Value)
    → retry_count codec (with_retry_count codec n headers) ≡ some n
unfolding retry_count with_retry_count
retry_count-with_retry_count codec n headers =
    let v = text (codec.str n) in
    let found : lookup "x-retry-count" (insert "x-retry-count" v headers) ≡ some v = ground (
      arith,
      lookup-insert "x-retry-count" "x-retry-count" v headers,
      eq_iff "x-retry-count" "x-retry-count",
    ) in
    let count = λ (w : Value). if truthy w then codec.int w else some 0 in
    ap (λ (o : Option Value). if truthy (or_zero o) then codec.int (or_zero o) else some 0) found
    ∙ ap (λ (b : Bool). if b then codec.int v else some 0) (codec.str-truthy n)
    ∙ codec.int-str n

accepts : Engines → Option Value → Bool
accepts engines none = true
accepts engines (some proto) = is_null proto || (engines.str proto == "1")

protocol_compatible_lem :
    (engines : Engines) (headers : Dict Value)
    → protocol_compatible engines headers ≡ accepts engines (lookup "pyflow-protocol" headers)
unfolding protocol_compatible accepts
protocol_compatible_lem engines headers = ground arith

pub protocol_compatible-with_retry_count :
    (codec : Codec) (engines : Engines) (n : ℕ) (headers : Dict Value)
    → protocol_compatible engines (with_retry_count codec n headers)
      ≡ protocol_compatible engines headers
unfolding with_retry_count
protocol_compatible-with_retry_count codec engines n headers =
    let v = text (codec.str n) in
    let same : lookup "pyflow-protocol" (insert "x-retry-count" v headers)
        ≡ lookup "pyflow-protocol" headers =
      ground (
        arith,
        lookup-insert "x-retry-count" "pyflow-protocol" v headers,
        eq_iff "x-retry-count" "pyflow-protocol",
      ) in
    protocol_compatible_lem engines (insert "x-retry-count" v headers)
    ∙ ap (accepts engines) same
    ∙ sym (protocol_compatible_lem engines headers)

-- Only the delay queue gives a message back.
leaves : (api_id name : String) → name ≢ dlq_queue api_id → (name == dlq_queue api_id) ≡ false
leaves api_id name differ = elim (Bool-cases (name == dlq_queue api_id)) [
  | inr other ↦ other
  | inl same ↦ absurd (differ ((eq_iff _ _).0 same))
]

dead_queue_leaves : (api_id : String) → (dead_queue api_id == dlq_queue api_id) ≡ false
unfolding queue_topology
dead_queue_leaves api_id =
    leaves api_id (dead_queue api_id)
      (λ e. (declare_flow_topology-queue_topology api_id 0).0.4 (sym e))

backoff_queue_leaves : (api_id : String) → (backoff_queue api_id == dlq_queue api_id) ≡ false
unfolding queue_topology
backoff_queue_leaves api_id =
    leaves api_id (backoff_queue api_id)
      (λ e. (declare_flow_topology-queue_topology api_id 0).0.3 (sym e))

-- A message that can be read, at its count.
pub record Reads (codec : Codec) (engines : Engines) (message : Message) (count : ℕ)
    (body : Dict Value) : Type 0 where
  pub fits : protocol_compatible engines message.headers ≡ true
  pub counted : retry_count codec message.headers ≡ some count
  pub readable : body_of (codec.decode message.body) ≡ some body

module _ (codec : Codec) (engines : Engines) (api_id : String) (max_retry : ℕ) where
  abbrev retried : Message → ℕ → Message
  retried message count = redelivered (
      copy_to codec api_id max_retry message count (dlq_queue api_id)
        (with_retry_count codec (suc count) message.headers))

  retried-Reads :
      (message : Message) (count : ℕ) (body : Dict Value)
      → Reads codec engines message count body
      → Reads codec engines (retried message count) (suc count) body
  retried-Reads message count body r = record {
    fits = protocol_compatible-with_retry_count codec engines (suc count) message.headers ∙ r.fits;
    counted = retry_count-with_retry_count codec (suc count) message.headers;
    readable = r.readable;
  }

  module _ {S : Type 0} (consume : Consume S) where
    abbrev pub rounds : ℕ → Message → S → ℕ × Option Copy
    rounds = attempts codec engines api_id max_retry consume

    abbrev follow : ℕ → S → List Effect → ℕ × Option Copy
    follow fuel s effects = elim (first_copy effects) [
      | none ↦ (1, none)
      | some copy ↦
          (let later = rounds fuel (redelivered copy) s in
            if copy.routing_key == dlq_queue api_id then one_more later else (1, some copy))
    ]

    attempts-follow :
        (fuel : ℕ) (message : Message) (count : ℕ) (body : Dict Value) (s : S)
        → Reads codec engines message count body
        → let (r, s') = consume body count message.message_id s in
          rounds (suc fuel) message s
          ≡ follow fuel s' (plan codec api_id max_retry message count (nack_on_error r))
    unfolding attempts
    attempts-follow fuel message count body s r =
        ap (λ (x : Result Error (Unit {0}) × Desk S). follow fuel x.1.inner x.1.effects)
          (on_message-plan codec engines api_id max_retry consume message count body r.fits
            r.counted r.readable s)

    -- The outcomes of one handling: the message leaves, or it comes back while it has retries left.
    follow-plan :
        (fuel : ℕ) (message : Message) (count : ℕ) (action : Action) (s : S)
        → ((follow fuel s (plan codec api_id max_retry message count action)).0 ≡ 1)
          ⊎ ((count < max_retry)
              × (follow fuel s (plan codec api_id max_retry message count action)
                  ≡ one_more (rounds fuel (retried message count) s)))
    follow-plan fuel message count ack s = inl refl
    follow-plan fuel message count backoff s = inl (rw (backoff_queue_leaves api_id))
    follow-plan fuel message count nack s = elim (Bool-cases (leb max_retry count)) [
      | inl enough ↦ inl (rw enough (rw (dead_queue_leaves api_id)))
      | inr more ↦ inr (ground arith, rw more (rw (eq_refl (dlq_queue api_id))))
    ]

    -- Whatever the handling does, a message that can be read is handled at most once more than it
    -- has retries left, for as long as it comes back from the delay queue.
    pub attempts-le :
        (fuel : ℕ) (message : Message) (count : ℕ) (body : Dict Value) (s : S)
        → Reads codec engines message count body
        → (rounds fuel message s).0 ≤ suc (max_retry - count)
    unfolding attempts
    attempts-le zero message count body s r = omega arith
    attempts-le (suc fuel) message count body s r =
        let (x, s') = consume body count message.message_id s in
        let e = attempts-follow fuel message count body s r in
        elim (follow-plan fuel message count (nack_on_error x) s') [
          | inl one ↦ omega (arith, ap (λ (y : ℕ × Option Copy). y.0) e, one)
          | inr (lt, more) ↦ omega (
            arith,
            ap (λ (y : ℕ × Option Copy). y.0) (e ∙ more),
            attempts-le fuel (retried message count) (suc count) body s'
                (retried-Reads message count body r),
            lt,
          )
        ]

    -- Every handling fails.
    abbrev pub Fails : Type 0
    Fails =
        (body : Dict Value) (count : ℕ) (id : Option String) (s : S)
        → nack_on_error (consume body count id s).0 ≡ nack

    -- The last copy is in the archive, with the message's body.
    abbrev pub IsArchived : Message → Option Copy → Type 0
    IsArchived message last =
        (copy : Copy) × (last ≡ some copy)
        × (copy.routing_key ≡ dead_queue api_id)
        × (copy.body ≡ message.body)

    follow-nack_enough :
        (fuel : ℕ) (message : Message) (count : ℕ) (s : S)
        → leb max_retry count ≡ true
        → follow fuel s (plan codec api_id max_retry message count nack) ≡ (
          1,
          some (copy_to codec api_id max_retry message count (dead_queue api_id) message.headers),
        )
    follow-nack_enough fuel message count s enough = rw enough (rw (dead_queue_leaves api_id))

    follow-nack_more :
        (fuel : ℕ) (message : Message) (count : ℕ) (s : S)
        → leb max_retry count ≡ false
        → follow fuel s (plan codec api_id max_retry message count nack)
          ≡ one_more (rounds fuel (retried message count) s)
    follow-nack_more fuel message count s more = rw more (rw (eq_refl (dlq_queue api_id)))

    -- A message that can be read and whose every handling fails is handled exactly once more than
    -- it has retries left, and then its body is in the archive.
    pub attempts-IsArchived :
        Fails
        → (fuel : ℕ) (message : Message) (count : ℕ) (body : Dict Value) (s : S)
        → Reads codec engines message count body
        → max_retry - count < fuel
        → ((rounds fuel message s).0 ≡ suc (max_retry - count))
          × IsArchived message (rounds fuel message s).1
    unfolding attempts
    attempts-IsArchived fails zero message count body s r h = absurd (omega arith)
    attempts-IsArchived fails (suc fuel) message count body s r h =
        let (x, s') = consume body count message.message_id s in
        let e : rounds (suc fuel) message s
            ≡ follow fuel s' (plan codec api_id max_retry message count nack) =
          attempts-follow fuel message count body s r
          ∙ ap (λ (a : Action). follow fuel s' (plan codec api_id max_retry message count a))
              (fails body count message.message_id s) in
        elim (Bool-cases (leb max_retry count)) [
          | inl enough ↦
              let e' = e ∙ follow-nack_enough fuel message count s' enough in
              (
                ground (arith, ap (λ (y : ℕ × Option Copy). y.0) e'),
                (_, ap (λ (y : ℕ × Option Copy). y.1) e', refl, refl),
              )
          | inr more ↦
              let e' = e ∙ follow-nack_more fuel message count s' more in
              let (n, (copy, last, to, same)) =
                attempts-IsArchived fails fuel (retried message count) (suc count) body s'
                  (retried-Reads message count body r) (ground arith) in
              (
                ground (arith, ap (λ (y : ℕ × Option Copy). y.0) e', n),
                (copy, ap (λ (y : ℕ × Option Copy). y.1) e' ∙ last, to, same),
              )
        ]
