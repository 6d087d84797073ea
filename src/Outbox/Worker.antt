-- ===== src/Outbox/Worker.antt =====
-- src/flagship_lab/outbox.py, `KafkaPublisher`, and src/flagship_lab/worker.py,
-- `run_outbox_worker`. The producer is a parameter: the error that its delivery callback reports
-- before `flush` returns, if any. So is `json.dumps` with its default separators.
use Prim.Native.Char.{code}
use flagship_lab.Json.{Json}
use flagship_lab.Prelude.Text.{str_nat, ◌<>◌}
use flagship_lab.Prelude.{
  none, some, String, ℕ, if◌then◌else◌, Option, ◌==◌, Bool, ◌&&◌, eqb, suc, ◌+◌, zero,
}
use flagship_lab.Tx.{Env, EventEnvelope, Tx, pure, ◌>>=◌, lift}
use flagship_lab.Outbox.{Broker, OutboxPublisher, new_publisher, publish_batch}

pub record KafkaPublisher : Type 0 where
  pub topic_prefix : String

-- `topic_prefix.rstrip(".")`
abbrev strip_dots : String → String
strip_dots String.[] = ""
strip_dots (String.◌∷◌ c s) =
    let rest = strip_dots s in if rest == "" && eqb (code c) b'.' then "" else String.◌∷◌ c rest

abbrev pub new_kafka : String → KafkaPublisher
new_kafka topic_prefix = record { topic_prefix = strip_dots topic_prefix }

pub record KafkaMessage : Type 0 where
  pub topic : String
  pub key : String
  pub value : String
  pub event_id : String
  pub tenant_id : String
  pub aggregate_id : String

-- How `produce` and `flush` end: the callback had no error, it had one, or a call raised.
pub data KafkaAnswer : Type 0 where
  delivered : KafkaAnswer
  undelivered : String → KafkaAnswer
  raised : String → KafkaAnswer

-- `KafkaPublisher.publish`, as the outbox sees it: nothing, or the text of the exception.
unfoldable pub kafka_publish :
    (KafkaMessage → KafkaAnswer) → (Json → String) → KafkaPublisher → EventEnvelope → Option String
unfolding str_nat
kafka_publish deliver dumps publisher event =
    elim (deliver (record {
      topic = publisher.topic_prefix <> "." <> event.topic;
      key = str_nat event.id;
      value = dumps event.payload;
      event_id = str_nat event.id;
      tenant_id = event.tenant_id;
      aggregate_id = event.aggregate_id;
    })) [
      | delivered ↦ none
      | undelivered error ↦ some ("RuntimeError: Kafka delivery failed: " <> error)
      | raised exc ↦ some exc
    ]

-- The rounds of the worker until `stop()` answers true, and how often it slept. An exception ends
-- it.
unfoldable pub run_rounds : Env → (ℕ → Bool) → OutboxPublisher → ℕ → ℕ → ℕ → Tx ℕ
unfolding publish_batch
run_rounds env locked worker batch_size zero slept = pure slept
run_rounds env locked worker batch_size (suc rounds) slept = do
  result ← publish_batch env locked worker batch_size
  run_rounds env locked worker batch_size rounds
      (if eqb result.selected 0 then slept + 1 else slept)

-- `run_outbox_worker`, where `stop()` answers true after `rounds` rounds.
unfoldable pub run_outbox_worker : Env → (ℕ → Bool) → Broker → ℕ → ℕ → ℕ → Tx ℕ
unfolding new_publisher run_rounds
run_outbox_worker env locked publisher batch_size max_attempts rounds = do
  worker ← lift (new_publisher publisher max_attempts)
  run_rounds env locked worker batch_size rounds 0
