-- ===== src/Outbox/Consumer/Once.antt =====
-- src/flagship_lab/outbox.py, `IdempotentConsumer.process`: a message that comes again.
use flagship_lab.Prelude.Text.{str_nat}
use flagship_lab.Tx.Bind.{Result-cases}
use flagship_lab.Schema.{ConsumerReceipt, Store}
use flagship_lab.Core.{connect, finish}
use flagship_lab.Outbox.Consumer.{IdempotentConsumer, store_receipt, process, receipts, new_receipt}
use flagship_lab.Tx.{Env, EventEnvelope, Tx, World, ok, Result, and_then, err, multiple_results}
use flagship_lab.Prelude.{
  String, ◌≡◌, select, Bool, ◌∷◌, [], true, false, list_cases, inl, select-append, inr, arith, ◌∙◌,
  List, ap, ◌++◌, eq_refl, refl,
}

module _ (env : Env) (c : IdempotentConsumer) (event : EventEnvelope) where
  receipts-append :
      (now : String) (s : Store)
      → receipts c event s ≡ []
      → receipts c event
          (record s { consumer_receipts = s.consumer_receipts ++ new_receipt c event now ∷ [] })
        ≡ new_receipt c event now ∷ []
  unfolding receipts select
  receipts-append now s absent =
      rw (select-append, absent)
        (rw (eq_refl c.consumer_name) (rw (eq_refl (str_nat event.id)) refl))

  -- A stored receipt is the only one of its consumer and message.
  receipts-store_receipt :
      (v : World) {b : Bool}
      → (store_receipt env c event v).0 ≡ ok b
      → receipts c event (store_receipt env c event v).1.store
        ≡ new_receipt c event (env.clock v.ticks) ∷ []
  unfolding store_receipt
  receipts-store_receipt v h = elim (list_cases (receipts c event v.store)) [
    | inl absent ↦ rw absent (receipts-append (env.clock v.ticks) v.store absent)
    | inr (x, xs, there) ↦ absurd (ground (arith, there))
  ]

  process_again :
      (handler : Tx (Unit {0})) (w : World) (r : ConsumerReceipt)
      → receipts c event w.store ≡ r ∷ []
      → process env c event handler w ≡ (ok false, w)
  unfolding process connect
  process_again handler w r h = rw h

  process_first :
      (handler : Tx (Unit {0})) (w : World)
      → receipts c event w.store ≡ []
      → process env c event handler w
        ≡ finish w.store (and_then (handler w) (λ _. store_receipt env c event))
  unfolding process connect
  process_first handler w h = rw h

  process_twice :
      (handler : Tx (Unit {0})) (w : World) (x y : ConsumerReceipt) (rest : List ConsumerReceipt)
      → receipts c event w.store ≡ x ∷ y ∷ rest
      → process env c event handler w ≡ (err multiple_results, w)
  unfolding process connect
  process_twice handler w x y rest h = rw h

  first_receipt :
      (m : Result (Unit {0}) × World) (s : Store)
      → (finish s (and_then m (λ _. store_receipt env c event))).0 ≡ ok true
      → (r : ConsumerReceipt) × (receipts c event
            (finish s (and_then m (λ _. store_receipt env c event))).1.store
          ≡ r ∷ [])
  first_receipt (err e, v) s h = absurd (ground arith)
  first_receipt (ok _, v) s h = elim (Result-cases (store_receipt env c event v).0) [
    | inl (b, stored) ↦ (
      new_receipt c event (env.clock v.ticks),
      rw (stored, finish) (receipts-store_receipt v stored),
    )
    | inr (e, refused) ↦ absurd (ground (arith, refused))
  ]

  -- After a message has been processed, processing it again runs no handler, changes nothing and
  -- says that it was a duplicate.
  pub process_once :
      (handler handler' : Tx (Unit {0})) (w : World)
      → (process env c event handler w).0 ≡ ok true
      → process env c event handler' (process env c event handler w).1
        ≡ (ok false, (process env c event handler w).1)
  process_once handler handler' w h = elim (list_cases (receipts c event w.store)) [
    | inl absent ↦
        let (r, kept) =
          first_receipt (handler w) w.store (rw (process_first handler w absent) at h) in
        process_again handler' _ r (rw (process_first handler w absent) kept)
    | inr (x, xs, there) ↦ elim (list_cases xs) [
      | inl single ↦
          absurd (ground (arith, process_again handler w x (there ∙ ap (λ l. x ∷ l) single)))
      | inr (y, ys, more) ↦
          absurd (ground (arith, process_twice handler w x y ys (there ∙ ap (λ l. x ∷ l) more)))
    ]
  ]
