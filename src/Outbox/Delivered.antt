-- ===== src/Outbox/Delivered.antt =====
-- src/flagship_lab/outbox.py, `publish_batch`: with a broker that takes every message, a batch
-- delivers all that it selects.
use flagship_lab.Core.Connect.{connect-ok}
use mathlib.Core.Path.{subst}
use flagship_lab.Outbox.Poison.{batch_runs}
use mathlib.Core.List.{append-nil, append_assoc}
use flagship_lab.Result.{ok}
use flagship_lab.Core.{loads, utc_now}
use flagship_lab.Json.{Json}
use flagship_lab.Outbox.{
  OutboxPublisher, unpublished_with_id, publish_row, envelope, update_outbox, publish,
  mark_published, publish_rows, BatchResult, tally, waiting, publish_batch, batch,
}
use flagship_lab.Schema.{Store, OutboxEvent}
use flagship_lab.Tx.{Env, EventEnvelope, World}
use flagship_lab.Prelude.{
  Bool, List, select, update, ℕ, All, ◌≡◌, some, ◌∷◌, [], none, false, Bool-cases, suc, inl, ◌+◌,
  arith, ◌++◌, inr, refl, true, select-update-none, length, sym, ap, ◌≤◌, ◌∙◌,
}

-- The payload of a row is JSON text.
abbrev pub IsReadable : Env → OutboxEvent → Type 0
IsReadable env row = (payload : Json) × (env.json_loads row.payload_json ≡ some payload)

-- The messages of the rows, in their order.
abbrev pub messages :
    (env : Env) (rows : List OutboxEvent) → All (IsReadable env) rows → List EventEnvelope
messages env [] readable = []
messages env (row ∷ rows) readable = envelope row readable.0.0 ∷ messages env rows readable.1

-- No row with the id waits for its delivery.
abbrev pub IsDone : Store → OutboxEvent → Type 0
IsDone s row = select (unpublished_with_id row.id) s.outbox_events.rows ≡ []

module _ {A : Type 0} (p q : A → Bool) (f : A → A) where
  -- An update that makes no row pass a test leaves an empty selection empty.
  select-update-nil :
      ((x : A) → q (f x) ≡ false) → (xs : List A) → select q xs ≡ [] → select q (update p f xs) ≡ []
  unfolding select update
  select-update-nil h [] e = refl
  select-update-nil h (x ∷ xs) e = elim (Bool-cases (q x)) [
    | inl holds ↦ absurd (ground (arith, rw holds at e))
    | inr fails ↦ elim (Bool-cases (p x)) [
      | inl changed ↦ rw changed (rw (h x) (select-update-nil h xs (rw fails at e)))
      | inr kept ↦ rw kept (rw fails (select-update-nil h xs (rw fails at e)))
    ]
  ]

module _ (env : Env) (p : OutboxPublisher)
    (delivers : (n : ℕ) (e : EventEnvelope) → p.publisher n e ≡ none) where
  abbrev marked : OutboxEvent → World → OutboxEvent → OutboxEvent
  marked row w r = record r {
    published_at = some (env.clock (suc w.ticks));
    attempts = row.attempts + 1;
  }

  -- The world after a row has been delivered and marked.
  abbrev after_row : OutboxEvent → Json → World → World
  after_row row payload w = record w {
    store = update_outbox row.id (marked row w) w.store;
    ticks = suc (suc w.ticks);
    sent = w.sent ++ envelope row payload ∷ [];
  }

  publish_row-delivers :
      (row : OutboxEvent) (payload : Json) (w : World)
      → env.json_loads row.payload_json ≡ some payload
      → publish_row env p row w ≡ (ok true, after_row row payload w)
  unfolding publish_row loads publish mark_published utc_now
  publish_row-delivers row payload w read =
      rw (read, loads) (rw (delivers w.ticks (envelope row payload), publish) refl)

  after_row-IsDone :
      (row : OutboxEvent) (payload : Json) (w : World) → IsDone (after_row row payload w).store row
  unfolding update_outbox
  after_row-IsDone row payload w =
      select-update-none (unpublished_with_id row.id) (marked row w) (λ x h. ground arith)
        w.store.outbox_events.rows

  IsDone-after_row :
      (done row : OutboxEvent) (payload : Json) (w : World)
      → IsDone w.store done
      → IsDone (after_row row payload w).store done
  unfolding update_outbox
  IsDone-after_row done row payload w h =
      select-update-nil (unpublished_with_id row.id) (unpublished_with_id done.id) (marked row w)
        (λ x. ground arith) w.store.outbox_events.rows h

  IsDone-publish_rows :
      (done : OutboxEvent) (rows : List OutboxEvent)
      → All (IsReadable env) rows
      → (r : BatchResult) (w : World) → IsDone w.store done
      → IsDone (publish_rows env p rows r w).1.store done
  unfolding publish_rows
  IsDone-publish_rows done [] readable r w h = h
  IsDone-publish_rows done (row ∷ rows) readable r w h =
      rw (publish_row-delivers row readable.0.0 w readable.0.1) (
        IsDone-publish_rows done rows readable.1 (tally r true) (after_row row readable.0.0 w)
          (IsDone-after_row done row readable.0.0 w h))

  publish_rows-step :
      (row : OutboxEvent) (rows : List OutboxEvent) (payload : Json) (r : BatchResult) (w : World)
      → env.json_loads row.payload_json ≡ some payload
      → publish_rows env p (row ∷ rows) r w
        ≡ publish_rows env p rows (tally r true) (after_row row payload w)
  unfolding publish_rows
  publish_rows-step row rows payload r w read = rw (publish_row-delivers row payload w read) refl

  -- What a run over readable rows returns, sends and settles.
  publish_rows-delivers :
      (rows : List OutboxEvent) (readable : All (IsReadable env) rows) (r : BatchResult) (w : World)
      → ((publish_rows env p rows r w).0 ≡ ok (record r { published = r.published + length rows }))
        × ((publish_rows env p rows r w).1.sent ≡ w.sent ++ messages env rows readable)
        × All (IsDone (publish_rows env p rows r w).1.store) rows
  unfolding publish_rows
  publish_rows-delivers [] readable r w = (ground arith, sym (append-nil w.sent), tt)
  publish_rows-delivers (row ∷ rows) readable r w =
      let payload = readable.0.0 in
      let v = after_row row payload w in
      let step = publish_rows-step row rows payload r w readable.0.1 in
      let (result, sent, done) = publish_rows-delivers rows readable.1 (tally r true) v in
      let here =
        IsDone-publish_rows row rows readable.1 (tally r true) v (after_row-IsDone row payload w) in
      (
        ap (λ m. m.0) step ∙ result ∙ ground arith,
        ap (λ m. m.1.sent) step
            ∙ sent
            ∙ append_assoc w.sent (envelope row payload ∷ []) (messages env rows readable.1),
        subst (λ m. All (IsDone m.1.store) (row ∷ rows)) (sym step) (here, done),
      )

  -- A batch within the limits, over readable rows, returns: it counts every selected row as
  -- published and none as failed, sends their messages in order behind those that were sent, and
  -- leaves no selected row waiting.
  pub publish_batch-delivers :
      (locked : ℕ → Bool) (limit : ℕ) (w : World)
      (readable : All (IsReadable env) (waiting env locked p limit w.store))
      → 1 ≤ limit
      → limit ≤ 1000
      → let rows = waiting env locked p limit w.store in
        let after = publish_batch env locked p limit w in
        (after.0 ≡ ok (record { selected = length rows; published = length rows; failed = 0 }))
        × (after.1.sent ≡ w.sent ++ messages env rows readable)
        × All (IsDone after.1.store) rows
  publish_batch-delivers locked limit w readable low high =
      let rows = waiting env locked p limit w.store in
      let none_yet : BatchResult = record { selected = length rows; published = 0; failed = 0 } in
      let (result, sent, done) = publish_rows-delivers rows readable none_yet w in
      let run =
        batch_runs env p locked limit w low high
        ∙ connect-ok env (batch env locked p limit) w result in
      (
        ap (λ m. m.0) run ∙ result ∙ ground arith,
        ap (λ m. m.1.sent) run ∙ sent,
        subst (λ m. All (IsDone m.1.store) rows) (sym run) done,
      )
