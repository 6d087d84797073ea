-- ===== src/Outbox/Consumer.antt =====
-- src/flagship_lab/outbox.py, `IdempotentConsumer`: a handler and its receipt in one transaction.
pub mod Once
use flagship_lab.Prelude.Text.{is_blank, str_nat}
use flagship_lab.Schema.{ConsumerReceipt, Store}
use flagship_lab.Core.{connect, utc_now}
use flagship_lab.Tx.{
  Env, Result, EventEnvelope, Tx, err, value_error, pure, ok, gets, raise_if, one_or_none, lift,
  integrity_error, modify, ◌>>=◌, ◌>>◌,
}
use flagship_lab.Prelude.{
  String, if◌then◌else◌, Bool, ◌==◌, none, Option, List, some, select, ◌&&◌, false, ltb, length,
  ◌++◌, ◌∷◌, [], true,
}

pub record IdempotentConsumer : Type 0 where
  pub consumer_name : String

unfoldable pub new_consumer : String → Result IdempotentConsumer
new_consumer name =
    if is_blank name
    then err (value_error "consumer_name is required")
    else ok (record { consumer_name = name })

abbrev pub is_receipt : String → String → ConsumerReceipt → Bool
is_receipt name event_id r = r.consumer_name == name && r.event_id == event_id

unfoldable pub receipts : IdempotentConsumer → EventEnvelope → Store → List ConsumerReceipt
receipts c event s = select (is_receipt c.consumer_name (str_nat event.id)) s.consumer_receipts

abbrev pub new_receipt : IdempotentConsumer → EventEnvelope → String → ConsumerReceipt
new_receipt c event now = record {
  consumer_name = c.consumer_name;
  event_id = str_nat event.id;
  tenant_id = event.tenant_id;
  processed_at = now;
}

-- The receipt is inserted under the primary key (consumer_name, event_id).
unfoldable pub store_receipt : Env → IdempotentConsumer → EventEnvelope → Tx Bool
unfolding utc_now
store_receipt env c event = do
  now ← utc_now env
  present ← gets (receipts c event)
  raise_if (ltb 0 (length present)) (integrity_error "consumer_receipts")
  modify (λ s. record s { consumer_receipts = s.consumer_receipts ++ new_receipt c event now ∷ [] })
  pure true

abbrev pub handle_once :
    Env → IdempotentConsumer → EventEnvelope → Tx (Unit {0}) → Option ConsumerReceipt → Tx Bool
handle_once env c event handler (some _) = pure false
handle_once env c event handler none = do handler; store_receipt env c event

-- `handler` is what `handler(event, conn)` does with the transaction.
unfoldable pub process : Env → IdempotentConsumer → EventEnvelope → Tx (Unit {0}) → Tx Bool
process env c event handler w =
    connect env none
      (do
        found ← gets (λ s. one_or_none (receipts c event s))
        exists ← lift found
        handle_once env c event handler exists)
      w
