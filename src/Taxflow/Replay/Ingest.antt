-- ===== src/Taxflow/Replay/Ingest.antt =====
-- src/flagship_lab/taxflow.py, `ingest`: a batch that is sent again with its idempotency key.
use mathlib.Core.Path.{subst}
use flagship_lab.Prelude.Text.{is_blank, count}
use flagship_lab.Json.Get.{get_field}
use flagship_lab.Result.{ok, err, value_error}
use flagship_lab.Json.{Json, obj, field, end}
use flagship_lab.Core.{new_uuid, append_audit_event, utc_now, connect}
use flagship_lab.Schema.{Store}
use flagship_lab.Prelude.{
  String, List, ℕ, some, ◌≡◌, length, suc, Option, ◌∙◌, none, ◌||◌, eq_refl, ltb, ap, false, refl,
  sym, ◌==◌,
}
use flagship_lab.Tx.{Env, World}
use flagship_lab.Taxflow.{
  count_json, TaxTransaction, TaxFlowService, ingest, ingest_body, ingest_after, ingest_new,
  ingest_hash, ingested_of, idempotent_response, store_idempotent_response, new_record,
  insert_transactions,
}
use flagship_lab.Taxflow.Replay.{
  Known, ReadsIngested, ingested_json, idempotent_response-ok, idempotent_response-Known,
  idempotent_response-other, store_idempotent_response-ok,
}
use flagship_lab.Tx.Bind.{and_then-eq-ok}
use flagship_lab.Core.Connect.{connect-eq-ok, connect-again, connect_again-err}

module _ (env : Env) (tenant key : String) (rows : List TaxTransaction)
    (reads : ReadsIngested env (length rows)) (hash now : String) where
  -- An answer of `n` rows to the request `hash` is on record.
  abbrev pub IsAnswered : Store → ℕ → Type 0
  IsAnswered s n =
      (q : Json) × Known env tenant "tax.ingest" key hash s (some q) × (ingested_of q ≡ ok n)

  -- The world in which the audit event of the batch is written.
  abbrev filled : World → World
  filled w = record w {
    ticks = suc w.ticks;
    store = record w.store {
      tax_transactions = insert_transactions env tenant now rows w.store.tax_transactions;
    };
  }

  ingest_new-IsAnswered :
      (w : World) (n : ℕ)
      → (ingest_new env tenant rows (some key) hash now w).0 ≡ ok n
      → IsAnswered (ingest_new env tenant rows (some key) hash now w).1.store n
  unfolding new_uuid get_field
  ingest_new-IsAnswered w n h =
      let entry =
        append_audit_event env "taxflow" "BATCH_INGESTED" (env.uuid4 w.ticks)
          (obj (field "rows" (count_json (length rows)) end)) tenant (filled w) in
      let (digest, appended, run, rest) = and_then-eq-ok entry _ n h in
      let (u, stored, run', rest') =
        and_then-eq-ok
          (store_idempotent_response env tenant "tax.ingest" (some key) hash
            (ingested_json (length rows)) entry.1)
          _ n rest in
      rw (run ∙ run') (
        ingested_json (length rows),
        (
          new_record tenant "tax.ingest" key hash (ingested_json (length rows))
              (env.clock entry.1.ticks),
          store_idempotent_response-ok env tenant "tax.ingest" key hash
              (ingested_json (length rows)) entry.1 stored,
          eq_refl hash,
          reads,
        ),
        rest',
      )

  after_read :
      (replay : Option Json) (w : World) (n : ℕ)
      → Known env tenant "tax.ingest" key hash w.store replay
      → (ingest_after env tenant rows (some key) hash now replay w).0 ≡ ok n
      → IsAnswered (ingest_after env tenant rows (some key) hash now replay w).1.store n
  after_read none w n known h = ingest_new-IsAnswered w n h
  after_read (some q) w n known h = (q, known, h)

  -- A batch that was taken with a key has its answer on record.
  ingest_body-IsAnswered :
      (w : World) (n : ℕ)
      → (ingest_body env tenant rows (some key) hash now w).0 ≡ ok n
      → ((is_blank key || ltb 100 (count key)) ≡ false)
        × IsAnswered (ingest_body env tenant rows (some key) hash now w).1.store n
  ingest_body-IsAnswered w n h =
      let (replay, got, run, rest) =
        and_then-eq-ok (idempotent_response env tenant "tax.ingest" (some key) hash w)
          (ingest_after env tenant rows (some key) hash now) n h in
      let (good, same, known) =
        idempotent_response-ok env tenant "tax.ingest" key hash w replay got in
      (
        good,
        rw run (
            after_read replay _ n
              (subst (λ v. Known env tenant "tax.ingest" key hash v.store replay) (sym same) known)
              rest),
      )

  ingest_body-replay :
      (w : World) (n : ℕ)
      → (is_blank key || ltb 100 (count key)) ≡ false
      → IsAnswered w.store n
      → ingest_body env tenant rows (some key) hash now w ≡ (ok n, w)
  ingest_body-replay w n good (q, known, answer) =
      rw (idempotent_response-Known env tenant "tax.ingest" key hash w q good known, answer) refl

module _ (env : Env) (service : TaxFlowService) (key : String) (rows : List TaxTransaction)
    (reads : ReadsIngested env (length rows)) (w : World) where
  -- Where the answer is read back as it was printed, a batch that was taken, sent again with its
  -- key, is answered with the same number, and the database stays as it is.
  pub ingest_twice :
      (n : ℕ)
      → (ingest env service rows (some key) w).0 ≡ ok n
      → ((ingest env service rows (some key) (ingest env service rows (some key) w).1).0 ≡ ok n)
        × ((ingest env service rows (some key) (ingest env service rows (some key) w).1).1.store
            ≡ (ingest env service rows (some key) w).1.store)
  unfolding ingest utc_now
  ingest_twice n h =
      let tenant = service.tenant_id in
      let hash = ingest_hash env rows in
      let body = ingest_body env tenant rows (some key) hash (env.clock w.ticks) in
      let w' = record w { ticks = suc w.ticks } in
      let (committed, done) = connect-eq-ok env (some tenant) body w' h in
      let (good, answered) =
        ingest_body-IsAnswered env tenant key rows reads hash (env.clock w.ticks) w' n done in
      let after = (connect env (some tenant) body w').1 in
      let later = env.clock after.ticks in
      let v = record after { ticks = suc after.ticks } in
      let known : IsAnswered env tenant key rows reads hash later v.store n =
        rw committed answered in
      let again = ingest_body-replay env tenant key rows reads hash later v n good known in
      let ended =
        connect-again env (some tenant) body w' (ingest_body env tenant rows (some key) hash later)
          v h (ap (λ m. m.0) again) in
      (rw (ended ∙ again) refl, rw (ended ∙ again) refl)

  -- Where the answer is read back as it was printed, a key that was used for one batch refuses a
  -- batch with another hash, and the database stays as it is.
  pub ingest_other :
      (n : ℕ) (rows' : List TaxTransaction)
      → (ingest env service rows (some key) w).0 ≡ ok n
      → (ingest_hash env rows == ingest_hash env rows') ≡ false
      → ((ingest env service rows' (some key) (ingest env service rows (some key) w).1).0
          ≡ err (value_error "idempotency key was already used with a different request"))
        × ((ingest env service rows' (some key) (ingest env service rows (some key) w).1).1.store
            ≡ (ingest env service rows (some key) w).1.store)
  unfolding ingest utc_now
  ingest_other n rows' h differs =
      let tenant = service.tenant_id in
      let hash = ingest_hash env rows in
      let body = ingest_body env tenant rows (some key) hash (env.clock w.ticks) in
      let w' = record w { ticks = suc w.ticks } in
      let (committed, done) = connect-eq-ok env (some tenant) body w' h in
      let (good, (q, known, answer)) =
        ingest_body-IsAnswered env tenant key rows reads hash (env.clock w.ticks) w' n done in
      let after = (connect env (some tenant) body w').1 in
      let later = env.clock after.ticks in
      let v = record after { ticks = suc after.ticks } in
      let found : Known env tenant "tax.ingest" key hash v.store (some q) = rw committed known in
      let refused =
        idempotent_response-other env tenant "tax.ingest" key hash (ingest_hash env rows') v q good
          found differs in
      let second = ingest_body env tenant rows' (some key) (ingest_hash env rows') later in
      let raised : (second v).0
          ≡ err (value_error "idempotency key was already used with a different request") =
        rw refused refl in
      let ended = connect_again-err env (some tenant) body w' second v h raised in
      (rw ended refl, rw ended refl)
