-- ===== src/Schema/Tax.antt =====
-- src/flagship_lab/sql_models.py: the rows of tax transactions, rule runs, findings and review
-- workflows.
use flagship_lab.Prelude.{ℕ, String, Option}
use flagship_lab.Decimal.{Decimal}

pub record TaxTransactionRow : Type 0 where
  pub id : ℕ
  pub tenant_id : String
  pub invoice_id : String
  pub seller_tax_id : Option String
  pub buyer_tax_id : Option String
  pub invoice_date : String
  pub amount : Decimal
  pub tax_rate : Decimal
  pub tax_amount : Decimal
  pub currency : String
  pub source_hash : String
  pub ingested_at : String

pub record TaxRuleRun : Type 0 where
  pub run_id : String
  pub tenant_id : String
  pub rule_version : String
  pub rule_pack_json : String
  pub started_at : String
  pub completed_at : Option String
  pub transaction_count : ℕ
  pub finding_count : ℕ

pub record TaxFinding : Type 0 where
  pub id : ℕ
  pub tenant_id : String
  pub run_id : String
  pub transaction_id : Option ℕ
  pub invoice_id : String
  pub rule_code : String
  pub severity : String
  pub explanation : String
  pub evidence_json : String

pub record TaxRunWorkflow : Type 0 where
  pub run_id : String
  pub tenant_id : String
  pub requested_by : String
  pub status : String
  pub version : ℕ
  pub reviewed_by : Option String
  pub reviewed_at : Option String
  pub decision_comment : Option String
