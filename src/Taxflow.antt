-- ===== src/Taxflow.antt =====
-- src/flagship_lab/taxflow.py: transactions, idempotency records and the ingestion of a batch.
-- A PostgreSQL advisory lock orders two requests with one key and does not change the database.
pub mod Runs
pub mod Replay
pub mod Review
use flagship_lab.Prelude.Text.{is_blank, count}
use flagship_lab.Json.Get.{get_field}
use flagship_lab.Prelude.Int.{pos}
use flagship_lab.Result.{◌>=>◌}
use flagship_lab.Schema.{IdempotencyRecord, Store, Table, TaxTransactionRow, add_row}
use flagship_lab.Result.{Result, ok, err, integrity_error, key_error, type_error, value_error}
use flagship_lab.Tx.{Env, Tx, pure, lift, modify, raise_if, gets, one_or_none, ◌>>=◌, ◌>>◌}
use flagship_lab.Decimal.{str_decimal, quantize, Decimal}
use flagship_lab.Prelude.{
  String, Option, ℕ, List, some, select, ◌∷◌, Bool, false, none, ◌==◌, true, not, [], ◌&&◌, ◌||◌,
  ◌++◌, ltb, length,
}
use flagship_lab.Json.{
  Json, null, int, Items, obj, field, text, arr, canonical_json, nil, cons, decimal, end,
}
use flagship_lab.Core.{connect, utc_now, loads, sha256_json, new_uuid, append_audit_event}

pub record TaxTransaction : Type 0 where
  pub invoice_id : String
  pub seller_tax_id : Option String
  pub buyer_tax_id : Option String
  pub invoice_date : String
  pub amount : Decimal
  pub tax_rate : Decimal
  pub tax_amount : Decimal
  pub currency : String

unfoldable pub money : Decimal → Result Decimal
unfolding quantize
money d = quantize 4 d

unfoldable pub rate : Decimal → Result Decimal
unfolding quantize
rate d = quantize 6 d

-- `__post_init__`: the amounts are rounded.
unfoldable pub post_init : TaxTransaction → Result TaxTransaction
unfolding money rate
post_init t = money t.amount >=> λ amount. rate t.tax_rate >=> λ tax_rate.
    money t.tax_amount >=> λ tax_amount.
    ok (record t { amount = amount; tax_rate = tax_rate; tax_amount = tax_amount })

abbrev text_or_null : Option String → Json
text_or_null none = null
text_or_null (some s) = text s

-- `asdict(tx)`
unfoldable pub transaction_dict : TaxTransaction → Json
unfolding str_decimal
transaction_dict t = obj (
    field "invoice_id" (text t.invoice_id) (
      field "seller_tax_id" (text_or_null t.seller_tax_id) (
        field "buyer_tax_id" (text_or_null t.buyer_tax_id) (
          field "invoice_date" (text t.invoice_date) (
            field "amount" (decimal (str_decimal t.amount)) (
              field "tax_rate" (decimal (str_decimal t.tax_rate)) (
                field "tax_amount" (decimal (str_decimal t.tax_amount))
                  (field "currency" (text t.currency) end))))))))

pub record TaxFlowService : Type 0 where
  pub tenant_id : String

abbrev pub is_record : String → String → String → IdempotencyRecord → Bool
is_record tenant operation key r =
    r.tenant_id == tenant && r.operation == operation && r.idempotency_key == key

unfoldable pub records_of : String → String → String → Store → List IdempotencyRecord
records_of tenant operation key s = select (is_record tenant operation key) s.idempotency_records

-- The stored answer, once the record has been read.
abbrev pub stored_response : Env → String → Option IdempotencyRecord → Tx (Option Json)
stored_response env request_hash none = pure none
stored_response env request_hash (some r) = do
  raise_if (not (r.request_hash == request_hash))
      (value_error "idempotency key was already used with a different request")
  response ← lift (loads env r.response_json)
  pure (some response)

unfoldable pub idempotent_response :
    Env → String → String → Option String → String → Tx (Option Json)
unfolding records_of loads
idempotent_response env tenant operation none request_hash = pure none
idempotent_response env tenant operation (some key) request_hash = do
  raise_if (is_blank key || ltb 100 (count key))
      (value_error "idempotency key must contain 1-100 characters")
  found ← gets (λ s. one_or_none (records_of tenant operation key s))
  existing ← lift found
  stored_response env request_hash existing

abbrev pub new_record : String → String → String → String → Json → String → IdempotencyRecord
new_record tenant operation key request_hash response now = record {
  tenant_id = tenant;
  operation = operation;
  idempotency_key = key;
  request_hash = request_hash;
  response_json = canonical_json response;
  status_code = 201;
  created_at = now;
}

abbrev any_record : List IdempotencyRecord → Bool
any_record [] = false
any_record _ = true

-- The insert is refused where the primary key is taken.
unfoldable pub store_idempotent_response :
    Env → String → String → Option String → String → Json → Tx (Unit {0})
unfolding utc_now records_of
store_idempotent_response env tenant operation none request_hash response = pure tt
store_idempotent_response env tenant operation (some key) request_hash response = do
  now ← utc_now env
  taken ← gets (λ s. any_record (records_of tenant operation key s))
  raise_if taken (integrity_error "idempotency_records")
  modify (λ s. record s {
    idempotency_records =
        s.idempotency_records ++ new_record tenant operation key request_hash response now ∷ [];
  })

abbrev pub transaction_row : Env → String → String → TaxTransaction → ℕ → TaxTransactionRow
transaction_row env tenant now t id = record {
  id = id;
  tenant_id = tenant;
  invoice_id = t.invoice_id;
  seller_tax_id = t.seller_tax_id;
  buyer_tax_id = t.buyer_tax_id;
  invoice_date = t.invoice_date;
  amount = t.amount;
  tax_rate = t.tax_rate;
  tax_amount = t.tax_amount;
  currency = t.currency;
  source_hash = sha256_json env (transaction_dict t);
  ingested_at = now;
}

unfoldable pub insert_transactions :
    Env → String → String → List TaxTransaction → Table TaxTransactionRow → Table TaxTransactionRow
insert_transactions env tenant now [] t = t
insert_transactions env tenant now (x ∷ xs) t =
    insert_transactions env tenant now xs (add_row (transaction_row env tenant now x) t)

abbrev asdicts : List TaxTransaction → Items
asdicts [] = nil
asdicts (t ∷ ts) = cons (transaction_dict t) (asdicts ts)

abbrev pub count_json : ℕ → Json
count_json n = int (pos n)

-- `int(replay["ingested"])` of a `dict` that holds an integer there.
abbrev replayed_count : Option Json → Result ℕ
replayed_count (some (int (pos n))) = ok n
replayed_count none = err (key_error "ingested")
replayed_count (some _) = err type_error

abbrev pub ingested_of : Json → Result ℕ
ingested_of (obj fs) = replayed_count (get_field "ingested" fs)
ingested_of _ = err type_error

abbrev pub ingest_new : Env → String → List TaxTransaction → Option String → String → String → Tx ℕ
ingest_new env tenant rows key request_hash now = do
  modify (λ s. record s {
    tax_transactions = insert_transactions env tenant now rows s.tax_transactions;
  })
  batch ← new_uuid env
  append_audit_event env "taxflow" "BATCH_INGESTED" batch
      (obj (field "rows" (count_json (length rows)) end)) tenant
  store_idempotent_response env tenant "tax.ingest" key request_hash
      (obj (field "ingested" (count_json (length rows)) end))
  pure (length rows)

abbrev pub ingest_after :
    Env → String → List TaxTransaction → Option String → String → String → Option Json → Tx ℕ
ingest_after env tenant rows key request_hash now (some replay) = lift (ingested_of replay)
ingest_after env tenant rows key request_hash now none =
    ingest_new env tenant rows key request_hash now

abbrev pub ingest_body : Env → String → List TaxTransaction → Option String → String → String → Tx ℕ
ingest_body env tenant rows key request_hash now = do
  replay ← idempotent_response env tenant "tax.ingest" key request_hash
  ingest_after env tenant rows key request_hash now replay

unfoldable pub ingest_hash : Env → List TaxTransaction → String
ingest_hash env rows = sha256_json env (arr (asdicts rows))

unfoldable pub ingest : Env → TaxFlowService → List TaxTransaction → Option String → Tx ℕ
unfolding utc_now
ingest env service rows key = do
  now ← utc_now env
  connect env (some service.tenant_id)
      (ingest_body env service.tenant_id rows key (ingest_hash env rows) now)
