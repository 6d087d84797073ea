-- ===== src/Examples/Reviews.antt =====
-- The theorems on reviews and on idempotency keys, at one run with a pending request.
use flagship_lab.Decimal.{Decimal}
use flagship_lab.Result.{Failure, err, ok, value_error}
use flagship_lab.Schema.{Store, TaxRunWorkflow, empty_store}
use flagship_lab.Prelude.{[], some, refl, ◌≡◌, ◌∷◌, ◌==◌, none, false}
use flagship_lab.Examples.{sample_env, world_of, start}
use flagship_lab.Taxflow.{TaxFlowService, TaxTransaction, ingest, ingest_hash}
use flagship_lab.Taxflow.Review.{review_run, judge, requested, decided, workflows_of}
use flagship_lab.Taxflow.Review.Decision.{review_race}
use flagship_lab.Taxflow.Review.Outcome.{IsReviewed, review_run-IsReviewed, review_run-final}
use flagship_lab.Taxflow.Replay.{ReadsIngested}
use flagship_lab.Taxflow.Replay.Ingest.{ingest_twice, ingest_other}

abbrev acme : TaxFlowService
acme = record { tenant_id = "acme" }

abbrev request : TaxRunWorkflow
request = requested "acme" "run-1" "ann"

abbrev pending_store : Store
pending_store = record empty_store { tax_run_workflow = request ∷ [] }

abbrev approval : TaxRunWorkflow
approval = decided "APPROVED" 1 "bob" "2026-01-01" "checked" request

approved :
    (review_run sample_env acme "run-1" "bob" "APPROVE" "checked" (world_of pending_store)).0
    ≡ ok approval
unfolding review_run flagship_lab.Prelude.Text.is_blank flagship_lab.Core.connect
    flagship_lab.Prelude.select flagship_lab.Taxflow.Review.write_decision
    flagship_lab.Core.append_audit_event flagship_lab.Core.hash_taken flagship_lab.Prelude.update
approved = refl

review_run-IsReviewed_example :
    IsReviewed sample_env "acme" "run-1" "bob" "APPROVE" "checked"
      (world_of pending_store)
      approval
      (review_run sample_env acme "run-1" "bob" "APPROVE" "checked"
        (world_of pending_store)).1.store
review_run-IsReviewed_example =
    review_run-IsReviewed sample_env acme "run-1" "bob" "APPROVE" "checked" (world_of pending_store)
      approval approved

abbrev approved_store : Store
approved_store = record empty_store { tax_run_workflow = approval ∷ [] }

approved_read : workflows_of "acme" "run-1" approved_store ≡ approval ∷ []
unfolding workflows_of flagship_lab.Prelude.select
approved_read = refl

review_run-final_example :
    ((e : Failure) × ((review_run sample_env acme "run-1" "eve" "REJECT" "no"
          (world_of approved_store)).0
        ≡ err e))
    × ((review_run sample_env acme "run-1" "eve" "REJECT" "no" (world_of approved_store)).1.store
        ≡ approved_store)
review_run-final_example =
    review_run-final sample_env acme "run-1" "eve" "REJECT" "no" (world_of approved_store) approval
      approved_read refl

judged :
    (judge sample_env "acme" "run-1" "bob" "APPROVE" "checked"
      (some request)
      (world_of pending_store)).0
    ≡ ok approval
unfolding flagship_lab.Taxflow.Review.write_decision flagship_lab.Prelude.select
    flagship_lab.Core.append_audit_event flagship_lab.Core.hash_taken flagship_lab.Prelude.update
judged = refl

review_race_example :
    (judge sample_env "acme" "run-1" "eve" "REJECT" "no"
      (some request)
      (judge sample_env "acme" "run-1" "bob" "APPROVE" "checked"
        (some request)
        (world_of pending_store)).1).0
    ≡ err (value_error "concurrent review conflict")
review_race_example =
    review_race sample_env "acme" "run-1" request "bob" "eve" "APPROVE" "REJECT" "checked" "no"
      approval (world_of pending_store) judged refl

abbrev ten : Decimal
ten = record { negative = false; coefficient = 100000; scale = 4 }

abbrev invoice : TaxTransaction
invoice = record {
  invoice_id = "INV-1";
  seller_tax_id = some "SELLER-1";
  buyer_tax_id = none;
  invoice_date = "2026-01-01";
  amount = ten;
  tax_rate = ten;
  tax_amount = ten;
  currency = "CNY";
}

sample_reads : ReadsIngested sample_env 1
unfolding flagship_lab.Json.canonical_json
sample_reads = refl

invoice_ingested : (ingest sample_env acme (invoice ∷ []) (some "key-1") start).0 ≡ ok 1
unfolding ingest flagship_lab.Core.connect flagship_lab.Taxflow.idempotent_response
    flagship_lab.Prelude.Text.is_blank flagship_lab.Prelude.select flagship_lab.Core.new_uuid
    flagship_lab.Core.append_audit_event flagship_lab.Core.hash_taken
    flagship_lab.Taxflow.store_idempotent_response
invoice_ingested = refl

ingest_twice_example :
    ((ingest sample_env acme
        (invoice ∷ [])
        (some "key-1")
        (ingest sample_env acme (invoice ∷ []) (some "key-1") start).1).0
      ≡ ok 1)
    × ((ingest sample_env acme
          (invoice ∷ [])
          (some "key-1")
          (ingest sample_env acme (invoice ∷ []) (some "key-1") start).1).1.store
        ≡ (ingest sample_env acme (invoice ∷ []) (some "key-1") start).1.store)
ingest_twice_example =
    ingest_twice sample_env acme "key-1" (invoice ∷ []) sample_reads start 1 invoice_ingested

other_batch : (ingest_hash sample_env (invoice ∷ []) == ingest_hash sample_env []) ≡ false
unfolding ingest_hash flagship_lab.Core.sha256_json flagship_lab.Json.canonical_json
    flagship_lab.Taxflow.transaction_dict flagship_lab.Prelude.Text.str_leb
    flagship_lab.Prelude.Text.write_fraction
other_batch = refl

ingest_other_example :
    ((ingest sample_env acme []
        (some "key-1")
        (ingest sample_env acme (invoice ∷ []) (some "key-1") start).1).0
      ≡ err (value_error "idempotency key was already used with a different request"))
    × ((ingest sample_env acme []
          (some "key-1")
          (ingest sample_env acme (invoice ∷ []) (some "key-1") start).1).1.store
        ≡ (ingest sample_env acme (invoice ∷ []) (some "key-1") start).1.store)
ingest_other_example =
    ingest_other sample_env acme "key-1" (invoice ∷ []) sample_reads start 1 [] invoice_ingested
      other_batch
