-- ===== src/Outbox/Poison.antt =====
-- src/flagship_lab/outbox.py: a message that was dead-lettered, replayed and exhausted again. The
-- unique `outbox_id` of the dead letters refuses its second dead letter, inside the transaction.
use flagship_lab.Core.Connect.{connect-err}
use flagship_lab.Tx.Bind.{and_then-err, Result-cases, and_then-ok}
use flagship_lab.Prelude.Text.{clip}
use flagship_lab.Json.{Json}
use flagship_lab.Schema.{Store, DeadLetterEvent, OutboxEvent}
use flagship_lab.Core.{loads, connect}
use flagship_lab.Outbox.{
  has_dead_letter, OutboxPublisher, publish_row, envelope, mark_published, mark_failed, publish,
  settle, dead_letter_row, publish_rows, publish_batch, BatchResult, waiting, tally, batch,
}
use flagship_lab.Tx.{Env, World, err, integrity_error, Failure}
use flagship_lab.Prelude.{
  String, ℕ, List, ◌≡◌, true, some, ◌++◌, arith, ◌∷◌, ◌≤◌, ◌+◌, [], Option-cases, inl, inr, Option,
  none, suc, Bool, refl, length,
}

has_dead_letter-append :
    (id : ℕ) (ds : List DeadLetterEvent) (d : DeadLetterEvent)
    → has_dead_letter id ds ≡ true
    → has_dead_letter id (ds ++ d ∷ []) ≡ true
unfolding has_dead_letter
has_dead_letter-append id [] d h = absurd (ground arith)
has_dead_letter-append id (e ∷ ds) d h = ground (arith, has_dead_letter-append id ds d)

-- A waiting row whose next failure exhausts it, that has a dead letter already, and that the
-- broker refuses whenever it is called.
pub record IsPoison (env : Env) (p : OutboxPublisher) (s : Store) (row : OutboxEvent) : Type 0 where
  pub payload : Json
  pub readable : env.json_loads row.payload_json ≡ some payload
  pub refused :
      (tick : ℕ) → (error : String) × (p.publisher tick (envelope row payload) ≡ some error)
  pub exhausted : p.max_attempts ≤ row.attempts + 1
  pub replayed : has_dead_letter row.id s.dead_letter_events.rows ≡ true

module _ (env : Env) (p : OutboxPublisher) where
  settle-has_dead_letter :
      (row : OutboxEvent) (outcome : Option String) (id : ℕ) (w : World)
      → has_dead_letter id w.store.dead_letter_events.rows ≡ true
      → has_dead_letter id (settle env p.max_attempts row outcome w).1.store.dead_letter_events.rows
        ≡ true
  unfolding mark_published mark_failed
  settle-has_dead_letter row none id w h = h
  settle-has_dead_letter row (some message) id w h = ground (
    arith,
    has_dead_letter-append id w.store.dead_letter_events.rows
        (dead_letter_row row (clip 2000 message) (env.clock (suc w.ticks))
          w.store.dead_letter_events.next_id)
        h,
  )

  -- Dead letters are never taken back.
  publish_row-has_dead_letter :
      (row : OutboxEvent) (id : ℕ) (w : World)
      → has_dead_letter id w.store.dead_letter_events.rows ≡ true
      → has_dead_letter id (publish_row env p row w).1.store.dead_letter_events.rows ≡ true
  unfolding publish_row
  publish_row-has_dead_letter row id w h = elim (Option-cases (env.json_loads row.payload_json)) [
    | inl unreadable ↦ rw (unreadable, loads) h
    | inr (payload, read) ↦
        rw (read, loads)
          (elim (Option-cases (p.publisher w.ticks (envelope row payload))) [
            | inl sent ↦
                rw (sent, publish)
                  (settle-has_dead_letter row none id
                    (record w { sent = w.sent ++ envelope row payload ∷ []; ticks = suc w.ticks })
                    h)
            | inr (message, refused) ↦
                rw (refused, publish)
                  (settle-has_dead_letter row (some message) id (record w { ticks = suc w.ticks })
                    h)
          ])
  ]

  publish_row-poison :
      (row : OutboxEvent) (w : World)
      → IsPoison env p w.store row
      → (publish_row env p row w).0 ≡ err (integrity_error "dead_letter_events.outbox_id")
  unfolding publish_row
  publish_row-poison row w h =
      ground (arith, h.readable, (h.refused w.ticks).1, h.exhausted, h.replayed)

  publish_rows-poison :
      (before : List OutboxEvent) (row : OutboxEvent) (after : List OutboxEvent) (r : BatchResult)
      (w : World)
      → IsPoison env p w.store row
      → (e : Failure) × ((publish_rows env p (before ++ row ∷ after) r w).0 ≡ err e)
  unfolding publish_rows
  publish_rows-poison [] row after r w h = (
    integrity_error "dead_letter_events.outbox_id",
    rw (and_then-err (publish_row env p row w) _ _ (publish_row-poison row w h)) refl,
  )
  publish_rows-poison (b ∷ before) row after r w h = elim (Result-cases (publish_row env p b w).0) [
    | inl (published, done) ↦ rw (and_then-ok (publish_row env p b w) _ published done) (
        publish_rows-poison before row after (tally r published) (publish_row env p b w).1 (record {
          payload = h.payload;
          readable = h.readable;
          refused = h.refused;
          exhausted = h.exhausted;
          replayed = publish_row-has_dead_letter b row.id w h.replayed;
        }))
    | inr (e, failed) ↦ (e, rw (and_then-err (publish_row env p b w) _ e failed) refl)
  ]

  pub batch_runs :
      (locked : ℕ → Bool) (limit : ℕ) (w : World)
      → 1 ≤ limit
      → limit ≤ 1000
      → publish_batch env locked p limit w ≡ connect env none (batch env locked p limit) w
  unfolding publish_batch
  batch_runs locked limit w low high = ground arith

  -- A batch whose selection holds a poisoned row always raises, and is rolled back whole: the marks
  -- of the rows that were delivered before it are lost too.
  pub publish_batch-poison :
      (locked : ℕ → Bool) (limit : ℕ) (w : World) (before : List OutboxEvent) (row : OutboxEvent)
      (after : List OutboxEvent)
      → 1 ≤ limit
      → limit ≤ 1000
      → waiting env locked p limit w.store ≡ before ++ row ∷ after
      → IsPoison env p w.store row
      → ((e : Failure) × ((publish_batch env locked p limit w).0 ≡ err e))
        × ((publish_batch env locked p limit w).1.store ≡ w.store)
  publish_batch-poison locked limit w before row after low high chosen h =
      let (e, raised) =
        publish_rows-poison before row after
          (record { selected = length (before ++ row ∷ after); published = 0; failed = 0 }) w h in
      let ended = connect-err env (batch env locked p limit) w (rw chosen raised) in
      (
        (e, rw (batch_runs locked limit w low high, ended) refl),
        rw (batch_runs locked limit w low high, ended) refl,
      )
