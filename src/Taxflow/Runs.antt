-- ===== src/Taxflow/Runs.antt =====
-- src/flagship_lab/taxflow.py, `run_rules`, `_evaluate_row` and `findings`: a run of a rule pack
-- over the transactions of a tenant. A value of the pack is stored in a column of texts as the
-- driver binds it.
use flagship_lab.Prelude.Text.{◌<>◌}
use flagship_lab.Json.Get.{get_field}
use flagship_lab.Result.{Result, ok, err, type_error, integrity_error}
use flagship_lab.Tx.{Env, Tx, pure, gets, lift, raise_if, modify, ◌>>=◌, ◌>>◌}
use flagship_lab.Json.{Fields, field, Items, Json, text, cons, end, canonical_json, obj, nil}
use flagship_lab.Core.{utc_now, new_uuid, sha256_json, connect, append_audit_event}
use flagship_lab.Schema.{TaxTransactionRow, Store, TaxRuleRun, Table, TaxFinding, add_row}
use flagship_lab.Prelude.{
  String, List, Option, some, ◌∷◌, Bool, ℕ, select, none, ◌==◌, [], ltb, if◌then◌else◌, length,
  ◌++◌, ◌&&◌, any, update,
}
use flagship_lab.Taxflow.{
  TaxFlowService, idempotent_response, store_idempotent_response, count_json,
}
use flagship_lab.Result.{◌>=>◌}
use flagship_lab.TaxRules.{evaluate_rule, item}
use flagship_lab.TaxRules.Validate.{validate_rule_pack, default_rule_pack, as_list}

-- A finding, whose texts are values of the pack.
pub record Finding : Type 0 where
  pub transaction_id : Option ℕ
  pub invoice_id : String
  pub rule_code : Json
  pub severity : Json
  pub explanation : Json
  pub evidence : Fields

-- The finding of a rule that matched.
abbrev pub finding_of : TaxTransactionRow → Fields → Fields → Result Finding
finding_of r rule evidence = item "code" rule >=> λ code. item "severity" rule >=> λ severity.
    item "message" rule >=> λ message. ok (record {
      transaction_id = some r.id;
      invoice_id = r.invoice_id;
      rule_code = code;
      severity = severity;
      explanation = message;
      evidence =
          field "source_hash" (text r.source_hash)
            (field "invoice_date" (text r.invoice_date) evidence);
    })

unfoldable pub evaluate_row : TaxTransactionRow → List String → Items → Result (List Finding)
unfolding evaluate_rule item
evaluate_row r duplicates nil = ok []
evaluate_row r duplicates (cons (obj rule) rules) = evaluate_rule rule r duplicates >=> λ outcome.
    (if outcome.matched then (finding_of r rule outcome.evidence >=> λ f. ok (f ∷ [])) else ok [])
    >=> λ here. evaluate_row r duplicates rules >=> λ rest. ok (here ++ rest)
evaluate_row r duplicates (cons _ rules) = err type_error

unfoldable pub evaluate_rows : List TaxTransactionRow → List String → Items → Result (List Finding)
unfolding evaluate_row
evaluate_rows [] duplicates rules = ok []
evaluate_rows (r ∷ rs) duplicates rules = evaluate_row r duplicates rules >=> λ here.
    evaluate_rows rs duplicates rules >=> λ rest. ok (here ++ rest)

abbrev pub is_of_tenant : String → TaxTransactionRow → Bool
is_of_tenant tenant r = r.tenant_id == tenant

unfoldable pub transactions_of : String → Store → List TaxTransactionRow
transactions_of tenant s = select (is_of_tenant tenant) s.tax_transactions.rows

abbrev invoices : List TaxTransactionRow → List String
invoices [] = []
invoices (r ∷ rs) = r.invoice_id ∷ invoices rs

abbrev repeated : List TaxTransactionRow → TaxTransactionRow → Bool
repeated rows r = ltb 1 (length (select (λ x. x.invoice_id == r.invoice_id) rows))

-- The invoice ids that more than one row of the tenant has.
unfoldable pub duplicate_ids : List TaxTransactionRow → List String
duplicate_ids rows = invoices (select (repeated rows) rows)

abbrev bound_text : Env → Json → Result String
bound_text env v = elim (env.bind_text v) [ none ↦ err type_error | some s ↦ ok s ]

abbrev finding_row : String → String → Finding → String → String → String → ℕ → TaxFinding
finding_row tenant run_id f code severity explanation id = record {
  id = id;
  tenant_id = tenant;
  run_id = run_id;
  transaction_id = f.transaction_id;
  invoice_id = f.invoice_id;
  rule_code = code;
  severity = severity;
  explanation = explanation;
  evidence_json = canonical_json (obj f.evidence);
}

unfoldable pub insert_findings :
    Env → String → String → List Finding → Table TaxFinding → Result (Table TaxFinding)
insert_findings env tenant run_id [] t = ok t
insert_findings env tenant run_id (f ∷ fs) t = bound_text env f.rule_code >=> λ code.
    bound_text env f.severity >=> λ severity. bound_text env f.explanation >=> λ explanation.
    insert_findings env tenant run_id fs
      (add_row (finding_row tenant run_id f code severity explanation) t)

abbrev pub new_run : String → String → String → String → String → TaxRuleRun
new_run tenant run_id version pack_json now = record {
  run_id = run_id;
  tenant_id = tenant;
  rule_version = version;
  rule_pack_json = pack_json;
  started_at = now;
  completed_at = none;
  transaction_count = 0;
  finding_count = 0;
}

abbrev is_run_id : String → TaxRuleRun → Bool
is_run_id run_id r = r.run_id == run_id

abbrev completed : String → ℕ → ℕ → TaxRuleRun → TaxRuleRun
completed now transactions findings r = record r {
  completed_at = some now;
  transaction_count = transactions;
  finding_count = findings;
}

abbrev run_json : String → ℕ → ℕ → String → Fields
run_json version transactions findings pack_hash = field "rule_version" (text version) (
    field "transactions" (count_json transactions)
      (field "findings" (count_json findings) (field "rule_pack_hash" (text pack_hash) end)))

-- `rule_pack or DEFAULT_RULE_PACK`
abbrev pub chosen_pack : Option Fields → Fields
chosen_pack none = default_rule_pack
chosen_pack (some end) = default_rule_pack
chosen_pack (some fs) = fs

-- The version as the caller gives it, or the one of the pack.
abbrev pub chosen_version : Env → Option String → Fields → Result String
chosen_version env given pack = elim (present given) [
  | some v ↦ ok v
  | none ↦ item "pack_id" pack >=> λ pack_id.
      item "version" pack >=> λ version. ok (env.str pack_id <> "/" <> env.str version)
]
  where
    present : Option String → Option String
    present none = none
    present (some v) = if v == "" then none else some v

abbrev pack_rules : Fields → Result Items
pack_rules pack = elim (as_list (get_field "rules" pack)) [
  | none ↦ err type_error
  | some xs ↦ ok xs
]

unfoldable pub run_new : Env → String → Option String → String → String → String → Fields → Tx Json
unfolding utc_now transactions_of duplicate_ids evaluate_rows insert_findings sha256_json
run_new env tenant key run_id version request_hash pack = do
  started_at ← utc_now env
  taken ← gets (λ s. any (is_run_id run_id) s.tax_rule_runs)
  raise_if taken (integrity_error "tax_rule_runs.run_id")
  modify (λ s. record s {
    tax_rule_runs =
        s.tax_rule_runs
        ++ new_run tenant run_id version (canonical_json (obj pack)) started_at ∷ [];
  })
  rows ← gets (transactions_of tenant)
  rules ← lift (pack_rules pack)
  findings ← lift (evaluate_rows rows (duplicate_ids rows) rules)
  inserted ← gets (λ s. insert_findings env tenant run_id findings s.tax_findings)
  table ← lift inserted
  modify (λ s. record s { tax_findings = table })
  completed_at ← utc_now env
  modify (λ s. record s {
    tax_rule_runs =
        update (is_run_id run_id) (completed completed_at (length rows) (length findings))
          s.tax_rule_runs;
  })
  let summary = run_json version (length rows) (length findings) (sha256_json env (obj pack))
  append_audit_event env "taxflow" "RULE_RUN_COMPLETED" run_id (obj summary) tenant
  let response = obj (field "run_id" (text run_id) summary)
  store_idempotent_response env tenant "tax.run_rules" key request_hash response
  pure response

abbrev pub run_after :
    Env → String → Option String → String → String → String → Fields → Option Json → Tx Json
run_after env tenant key run_id version request_hash pack (some replay) = pure replay
run_after env tenant key run_id version request_hash pack none =
    run_new env tenant key run_id version request_hash pack

abbrev pub run_body : Env → String → Option String → String → String → String → Fields → Tx Json
run_body env tenant key run_id version request_hash pack = do
  replay ← idempotent_response env tenant "tax.run_rules" key request_hash
  run_after env tenant key run_id version request_hash pack replay

unfoldable pub run_rules :
    Env → TaxFlowService → Option String → Option Fields → Option String → Tx Json
unfolding new_uuid sha256_json
run_rules env service rule_version rule_pack key = do
  let pack = chosen_pack rule_pack
  lift (validate_rule_pack pack)
  version ← lift (chosen_version env rule_version pack)
  let request_hash =
      sha256_json env (obj (field "rule_version" (text version) (field "rule_pack" (obj pack) end)))
  run_id ← new_uuid env
  connect env (some service.tenant_id)
      (run_body env service.tenant_id key run_id version request_hash pack)

unfoldable pub findings : Env → TaxFlowService → String → Tx (List TaxFinding)
findings env service run_id = connect env (some service.tenant_id) (
    gets (λ s.
      select (λ f. f.run_id == run_id && f.tenant_id == service.tenant_id) s.tax_findings.rows))
