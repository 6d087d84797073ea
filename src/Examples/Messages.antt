-- ===== src/Examples/Messages.antt =====
-- The theorems on the outbox and its consumers, at a database with one message.
use flagship_lab.Outbox.Replay.{replay_dead_letter-once}
use flagship_lab.Outbox.Delivered.{messages, IsReadable, IsDone, publish_batch-delivers}
use flagship_lab.Tx.{pure, EventEnvelope, World}
use flagship_lab.Result.{Failure, ok, err, Result, value_error}
use flagship_lab.Prelude.{
  ◌+◌, ℕ, arith, some, ◌≡◌, Bool, none, length, ◌∷◌, false, refl, [], ◌≤◌, true, All, ◌++◌, select,
  ◌&&◌, not, eqb,
}
use flagship_lab.Outbox.{
  OutboxPublisher, publish_batch, waiting, BatchResult, replay_dead_letter, open_dead_letter,
  eligible, is_none,
}
use flagship_lab.Schema.{Store, DeadLetterEvent, empty_store, OutboxEvent}
use flagship_lab.Examples.{sample_env, world_of, start, sample_payload}
use flagship_lab.Outbox.Counts.{publish_batch_counts}
use flagship_lab.Outbox.Poison.{publish_batch-poison, IsPoison}
use flagship_lab.Outbox.Consumer.Once.{process_once}
use flagship_lab.Outbox.Consumer.{IdempotentConsumer, process}

abbrev message : ℕ → OutboxEvent
message attempts = record {
  id = 1;
  tenant_id = "acme";
  topic = "audit.event.created";
  aggregate_id = "1";
  payload_json = "{}";
  created_at = "2026-01-01";
  published_at = none;
  attempts = attempts;
  last_error = none;
  dead_lettered_at = none;
}

abbrev one_message : Store
one_message = record empty_store { outbox_events = record { rows = message 0 ∷ []; next_id = 2 } }

abbrev nothing_locked : ℕ → Bool
nothing_locked id = false

abbrev delivering : OutboxPublisher
delivering = record { publisher = λ tick event. none; max_attempts = 8 }

abbrev one_published : BatchResult
one_published = record { selected = 1; published = 1; failed = 0 }

one_published_run :
    (publish_batch sample_env nothing_locked delivering 10 (world_of one_message)).0
    ≡ ok one_published
unfolding publish_batch flagship_lab.Core.connect flagship_lab.Outbox.publish_rows waiting
    flagship_lab.Prelude.select flagship_lab.Outbox.publish_row
one_published_run = refl

publish_batch_counts_example :
    (1 + 0 ≡ 1)
    × (1 ≡ length (waiting sample_env nothing_locked delivering 10 one_message))
    × (1 ≤ 10)
    × (1 ≤ 10)
    × (10 ≤ 1000)
publish_batch_counts_example =
    publish_batch_counts sample_env delivering nothing_locked 10 (world_of one_message)
      one_published one_published_run

abbrev down : OutboxPublisher
down = record { publisher = λ tick event. some "connection refused"; max_attempts = 8 }

abbrev replayed_letter : DeadLetterEvent
replayed_letter = record {
  id = 1;
  outbox_id = 1;
  tenant_id = "acme";
  topic = "audit.event.created";
  aggregate_id = "1";
  payload_json = "{}";
  failure_reason = "connection refused";
  failed_at = "2026-01-01";
  replayed_at = some "2026-01-01";
}

abbrev poisoned : Store
poisoned = record empty_store {
  outbox_events = record { rows = message 7 ∷ []; next_id = 2 };
  dead_letter_events = record { rows = replayed_letter ∷ []; next_id = 2 };
}

message_poisons : IsPoison sample_env down poisoned (message 7)
unfolding flagship_lab.Outbox.has_dead_letter
message_poisons = record {
  payload = sample_payload;
  readable = refl;
  refused = λ tick. ("connection refused", refl);
  exhausted = omega arith;
  replayed = refl;
}

poisoned-waiting : waiting sample_env nothing_locked down 10 poisoned ≡ message 7 ∷ []
unfolding waiting flagship_lab.Prelude.select
poisoned-waiting = refl

publish_batch-poison_example :
    ((e : Failure) × ((publish_batch sample_env nothing_locked down 10 (world_of poisoned)).0
        ≡ err e))
    × ((publish_batch sample_env nothing_locked down 10 (world_of poisoned)).1.store ≡ poisoned)
publish_batch-poison_example =
    publish_batch-poison sample_env down nothing_locked 10 (world_of poisoned) [] (message 7) []
      (omega arith) (omega arith) poisoned-waiting message_poisons

abbrev ledger : IdempotentConsumer
ledger = record { consumer_name = "ledger" }

abbrev delivered : EventEnvelope
delivered = record {
  id = 1;
  tenant_id = "acme";
  topic = "audit.event.created";
  aggregate_id = "1";
  payload = sample_payload;
  created_at = "2026-01-01";
}

delivered_processed : (process sample_env ledger delivered (pure tt) start).0 ≡ ok true
unfolding process flagship_lab.Core.connect flagship_lab.Outbox.Consumer.receipts
    flagship_lab.Prelude.select flagship_lab.Outbox.Consumer.store_receipt
delivered_processed = refl

process_once_example :
    process sample_env ledger delivered
      (pure tt)
      (process sample_env ledger delivered (pure tt) start).1
    ≡ (ok false, (process sample_env ledger delivered (pure tt) start).1)
process_once_example =
    process_once sample_env ledger delivered (pure tt) (pure tt) start delivered_processed

message_readable :
    All (IsReadable sample_env) (waiting sample_env nothing_locked delivering 10 one_message)
unfolding waiting flagship_lab.Prelude.select
message_readable = ((sample_payload, refl), tt)

abbrev after_delivery : Result BatchResult × World
after_delivery = publish_batch sample_env nothing_locked delivering 10 (world_of one_message)

publish_batch-delivers_example :
    (after_delivery.0
      ≡ ok (record {
        selected = length (waiting sample_env nothing_locked delivering 10 one_message);
        published = length (waiting sample_env nothing_locked delivering 10 one_message);
        failed = 0;
      }))
    × (after_delivery.1.sent
        ≡ []
          ++ messages sample_env
              (waiting sample_env nothing_locked delivering 10 one_message)
              message_readable)
    × All
        (IsDone after_delivery.1.store)
        (waiting sample_env nothing_locked delivering 10 one_message)
publish_batch-delivers_example =
    publish_batch-delivers sample_env delivering (λ n e. refl) nothing_locked 10
      (world_of one_message) message_readable (omega arith) (omega arith)

abbrev open_letter : DeadLetterEvent
open_letter = record replayed_letter { replayed_at = none }

abbrev dead_message : OutboxEvent
dead_message = record (message 8) { dead_lettered_at = some "2026-01-01" }

abbrev given_up : World
given_up = world_of (record empty_store {
  outbox_events = record { rows = dead_message ∷ []; next_id = 2 };
  dead_letter_events = record { rows = open_letter ∷ []; next_id = 2 };
})

replayed_run : (replay_dead_letter sample_env 1 given_up).0 ≡ ok tt
unfolding replay_dead_letter flagship_lab.Core.connect flagship_lab.Prelude.select
replayed_run = refl

replay_dead_letter-once_example :
    (d : DeadLetterEvent) × (select (open_dead_letter 1) given_up.store.dead_letter_events.rows
      ≡ d ∷ [])
    × All
        (λ r.
          eligible sample_env nothing_locked 8 r
          ≡ (is_none r.published_at && not (sample_env.postgresql && nothing_locked r.id)))
        (select
          (λ r. eqb r.id d.outbox_id)
          (replay_dead_letter sample_env 1 given_up).1.store.outbox_events.rows)
    × ((replay_dead_letter sample_env 1 (replay_dead_letter sample_env 1 given_up).1).0
        ≡ err (value_error "unknown or already replayed dead letter"))
replay_dead_letter-once_example =
    replay_dead_letter-once sample_env 1 given_up nothing_locked 8 (omega arith) replayed_run
