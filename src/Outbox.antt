-- ===== src/Outbox.antt =====
-- src/flagship_lab/outbox.py: the publisher of the transactional outbox, the replay of dead letters
-- and the consumer with its receipts. What the message broker answers to a call is a
-- parameter: `none` for a delivery, or the text of the exception that the publisher raised.
pub mod Delivered
pub mod Worker
pub mod Consumer
pub mod Counts
pub mod Poison
pub mod Replay
use flagship_lab.Prelude.Text.{clip}
use flagship_lab.Json.{Json}
use flagship_lab.Core.{connect, utc_now, loads}
use flagship_lab.Tx.{
  EventEnvelope, Env, Tx, Result, raise, ok, err, value_error, and_then, gets, lift, modify,
  one_or_none, pure, raise_if, integrity_error, ◌>>◌, ◌>>=◌,
}
use flagship_lab.Schema.{OutboxEvent, Store, DeadLetterEvent, set_rows, add_row}
use flagship_lab.Prelude.{
  String, ℕ, Option, Bool, ◌&&◌, eqb, true, ◌+◌, List, if◌then◌else◌, none, false, some, ltb, take,
  leb, ◌++◌, select, update, not, ◌||◌, ◌∷◌, [], suc, length,
}

abbrev pub Broker : Type 0
Broker = ℕ → EventEnvelope → Option String

pub record OutboxPublisher : Type 0 where
  pub publisher : Broker
  pub max_attempts : ℕ

-- `OutboxPublisher(db, publisher, max_attempts=...)`
unfoldable pub new_publisher : Broker → ℕ → Result OutboxPublisher
new_publisher publisher max_attempts =
    if ltb max_attempts 1
    then err (value_error "max_attempts must be positive")
    else ok (record { publisher = publisher; max_attempts = max_attempts })

-- One call of the publisher: a delivered message has left the program for good.
unfoldable pub publish : Broker → EventEnvelope → Tx (Option String)
publish publisher event w = elim (publisher w.ticks event) [
  | none ↦ (ok none, record w { sent = w.sent ++ event ∷ []; ticks = suc w.ticks })
  | some error ↦ (ok (some error), record w { ticks = suc w.ticks })
]

unfoldable pub envelope : OutboxEvent → Json → EventEnvelope
envelope row payload = record {
  id = row.id;
  tenant_id = row.tenant_id;
  topic = row.topic;
  aggregate_id = row.aggregate_id;
  payload = payload;
  created_at = row.created_at;
}

-- `where(OutboxEvent.id == row["id"], OutboxEvent.published_at.is_(None))`
abbrev pub is_none {ℓ} : {A : Type ℓ} → Option A → Bool
is_none none = true
is_none (some _) = false

abbrev pub unpublished_with_id : ℕ → OutboxEvent → Bool
unpublished_with_id id r = eqb r.id id && is_none r.published_at

unfoldable pub update_outbox : ℕ → (OutboxEvent → OutboxEvent) → Store → Store
update_outbox id f s = record s {
  outbox_events = set_rows (update (unpublished_with_id id) f s.outbox_events.rows) s.outbox_events;
}

abbrev pub dead_letter_row : OutboxEvent → String → String → ℕ → DeadLetterEvent
dead_letter_row row error now id = record {
  id = id;
  outbox_id = row.id;
  tenant_id = row.tenant_id;
  topic = row.topic;
  aggregate_id = row.aggregate_id;
  payload_json = row.payload_json;
  failure_reason = error;
  failed_at = now;
  replayed_at = none;
}

-- `DeadLetterEvent.outbox_id` is unique.
unfoldable pub has_dead_letter : ℕ → List DeadLetterEvent → Bool
has_dead_letter outbox_id [] = false
has_dead_letter outbox_id (d ∷ ds) = eqb d.outbox_id outbox_id || has_dead_letter outbox_id ds

unfoldable pub dead_letter : Env → OutboxEvent → String → Tx (Unit {0})
unfolding utc_now has_dead_letter
dead_letter env row error = do
  now ← utc_now env
  taken ← gets (λ s. has_dead_letter row.id s.dead_letter_events.rows)
  raise_if taken (integrity_error "dead_letter_events.outbox_id")
  modify (λ s. record s {
    dead_letter_events = add_row (dead_letter_row row error now) s.dead_letter_events;
  })

-- `except Exception as exc: ...`
unfoldable pub mark_failed : Env → ℕ → OutboxEvent → String → Tx Bool
unfolding utc_now update_outbox dead_letter
mark_failed env max_attempts row message =
    let attempts = row.attempts + 1 in
    let error = clip 2000 message in
    if leb max_attempts attempts
    then (do
      now ← utc_now env
      modify (
          update_outbox row.id (λ r. record r {
            attempts = attempts;
            last_error = some error;
            dead_lettered_at = some now;
          }))
      dead_letter env row error
      pure false)
    else (do
      modify (
          update_outbox row.id (λ r. record r {
            attempts = attempts;
            last_error = some error;
            dead_lettered_at = none;
          }))
      pure false)

-- `else: ...`
unfoldable pub mark_published : Env → OutboxEvent → Tx Bool
unfolding utc_now update_outbox
mark_published env row = do
  now ← utc_now env
  modify (
      update_outbox row.id (λ r. record r { published_at = some now; attempts = row.attempts + 1 }))
  pure true

abbrev pub settle : Env → ℕ → OutboxEvent → Option String → Tx Bool
settle env max_attempts row none = mark_published env row
settle env max_attempts row (some message) = mark_failed env max_attempts row message

-- One round of the loop; the result says whether the event was published.
unfoldable pub publish_row : Env → OutboxPublisher → OutboxEvent → Tx Bool
unfolding loads publish envelope mark_failed mark_published
publish_row env p row = do
  payload ← lift (loads env row.payload_json)
  outcome ← publish p.publisher (envelope row payload)
  settle env p.max_attempts row outcome

pub record BatchResult : Type 0 where
  pub selected : ℕ
  pub published : ℕ
  pub failed : ℕ

abbrev pub tally : BatchResult → Bool → BatchResult
tally r true = record r { published = r.published + 1 }
tally r false = record r { failed = r.failed + 1 }

unfoldable pub publish_rows :
    Env → OutboxPublisher → List OutboxEvent → BatchResult → Tx BatchResult
publish_rows env p [] r w = (ok r, w)
publish_rows env p (row ∷ rows) r w =
    and_then (publish_row env p row w) (λ published. publish_rows env p rows (tally r published))

-- The rows that are waiting, but for those that another worker has locked (PostgreSQL's
-- `FOR UPDATE SKIP LOCKED`).
unfoldable pub eligible : Env → (ℕ → Bool) → ℕ → OutboxEvent → Bool
eligible env locked max_attempts r =
    is_none r.published_at
    && is_none r.dead_lettered_at
    && ltb r.attempts max_attempts
    && not (env.postgresql && locked r.id)

unfoldable pub waiting : Env → (ℕ → Bool) → OutboxPublisher → ℕ → Store → List OutboxEvent
unfolding eligible
waiting env locked p limit s =
    take limit (select (eligible env locked p.max_attempts) s.outbox_events.rows)

-- What the batch does inside its transaction.
abbrev pub batch : Env → (ℕ → Bool) → OutboxPublisher → ℕ → Tx BatchResult
batch env locked p limit = do
  rows ← gets (waiting env locked p limit)
  publish_rows env p rows (record { selected = length rows; published = 0; failed = 0 })

unfoldable pub publish_batch : Env → (ℕ → Bool) → OutboxPublisher → ℕ → Tx BatchResult
publish_batch env locked p limit w =
    if ltb limit 1 || ltb 1000 limit
    then (err (value_error "limit must be between 1 and 1000"), w)
    else connect env none (batch env locked p limit) w

abbrev pub open_dead_letter : ℕ → DeadLetterEvent → Bool
open_dead_letter id d = eqb d.id id && is_none d.replayed_at

-- `OutboxPublisher.replay_dead_letter`
abbrev pub requeue : Env → ℕ → Option DeadLetterEvent → Tx (Unit {0})
requeue env id none = raise (value_error "unknown or already replayed dead letter")
requeue env id (some d) = do
  modify (λ s. record s {
    outbox_events =
        set_rows
          (update (λ r. eqb r.id d.outbox_id)
            (λ r. record r { attempts = 0; last_error = none; dead_lettered_at = none })
            s.outbox_events.rows)
          s.outbox_events;
  })
  now ← utc_now env
  modify (λ s. record s {
    dead_letter_events =
        set_rows
          (update (λ r. eqb r.id id) (λ r. record r { replayed_at = some now })
            s.dead_letter_events.rows)
          s.dead_letter_events;
  })

-- What the replay does inside its transaction.
abbrev pub reopen : Env → ℕ → Tx (Unit {0})
reopen env id = do
  found ← gets (λ s. one_or_none (select (open_dead_letter id) s.dead_letter_events.rows))
  row ← lift found
  requeue env id row

unfoldable pub replay_dead_letter : Env → ℕ → Tx (Unit {0})
unfolding utc_now
replay_dead_letter env id w = connect env none (reopen env id) w
