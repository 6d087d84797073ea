-- ===== src/Api/Requests.antt =====
-- src/flagship_lab/fastapi_app.py: the bodies of requests, with the bounds that their fields are
-- declared with, and the answers of the handlers. How pydantic counts the digits of a decimal
-- number is a parameter (`fits`: at most so many digits, so many of them behind the point).
use flagship_lab.Core.{Verdict}
use flagship_lab.RiskGraph.Investigate.{RiskFinding}
use flagship_lab.ControlPulse.Transition.{Transitioned}
use flagship_lab.RegIntel.{Answer}
use flagship_lab.Objects.{StoredObject}
use flagship_lab.RiskGraph.{Entity, Edge}
use Prim.Native.Char.{code}
use flagship_lab.Prelude.Text.{count}
use flagship_lab.Schema.{TaxRunWorkflow, TaxFinding, ControlCase, ControlCaseTransition}
use flagship_lab.ControlPulse.{ControlEvent, CaseItem}
use flagship_lab.Taxflow.{TaxTransaction}
use flagship_lab.Json.{Fields}
use flagship_lab.Decimal.{at_least, Decimal, decimal_of_nat}
use flagship_lab.Prelude.{String, Option, ℕ, List, Bool, ◌&&◌, ◌==◌, leb, true, ◌||◌, eqb}

abbrev pub between : ℕ → ℕ → String → Bool
between low high s = leb low (count s) && leb (count s) high

pub record TokenRequest : Type 0 where
  pub subject : String
  pub tenant_id : String
  pub roles : List String
  pub ttl_minutes : ℕ
  pub resource_scopes : List String

-- `[a-zA-Z0-9_-]`
abbrev tenant_char : ℕ → Bool
tenant_char c =
    leb b'a' c && leb c b'z'
    || leb b'A' c && leb c b'Z'
    || leb b'0' c && leb c b'9'
    || eqb c b'_'
    || eqb c b'-'

abbrev tenant_chars : String → Bool
tenant_chars String.[] = true
tenant_chars (String.◌∷◌ c s) = tenant_char (code c) && tenant_chars s

unfoldable pub valid_token_request : TokenRequest → Bool
valid_token_request r =
    between 1 100 r.subject
    && between 1 64 r.tenant_id
    && tenant_chars r.tenant_id
    && leb 1 r.ttl_minutes
    && leb r.ttl_minutes 480

abbrev fits_money : (ℕ → ℕ → Decimal → Bool) → Decimal → Bool
fits_money fits d = at_least d (decimal_of_nat 0) && fits 20 4 d

unfoldable pub valid_transaction : (ℕ → ℕ → Decimal → Bool) → TaxTransaction → Bool
unfolding at_least decimal_of_nat
valid_transaction fits t =
    between 1 100 t.invoice_id
    && fits_money fits t.amount
    && at_least t.tax_rate (decimal_of_nat 0)
    && at_least (decimal_of_nat 1) t.tax_rate
    && fits 9 6 t.tax_rate
    && fits_money fits t.tax_amount
    && between 3 3 t.currency

unfoldable pub valid_review : String → String → Bool
valid_review decision comment =
    (decision == "APPROVE" || decision == "REJECT") && between 3 500 comment

unfoldable pub valid_transition : String → String → Bool
valid_transition to_status reason =
    (to_status == "OPEN"
      || to_status == "IN_REVIEW"
      || to_status == "REMEDIATED"
      || to_status == "CLOSED")
    && between 3 500 reason

-- `RegulationDocumentIn`
pub record Document : Type 0 where
  pub document_key : String
  pub title : String
  pub source_url : String
  pub published_at : String
  pub content : String

-- A request: its route, with what it carries.
pub data Request : Type 0 where
  get_live : Request
  get_ready : Request
  get_health : Request
  post_dev_token : TokenRequest → Request
  post_transactions : List TaxTransaction → Option String → Request
  post_run : Option String → Option Fields → Option String → Request
  post_review : String → String → String → Request
  get_tax_findings : String → Request
  get_evidence : String → Request
  post_document : Document → Request
  post_answer : String → Request
  post_control_event : ControlEvent → Request
  get_cases : Request
  post_transition : ℕ → String → String → Request
  get_history : ℕ → Request
  post_entities : List Entity → Request
  post_edges : List Edge → Request
  get_graph_findings : Request
  get_audit : Request
  get_config : Request

pub record ConfigCheck : Type 0 where
  pub jwt_secret_configured : Bool
  pub evidence_signing_key_separated : Bool
  pub development_tokens_enabled : Bool
  pub external_token_verifier : Bool
  pub asymmetric_evidence_signing : Bool
  pub managed_immutable_evidence : Bool

-- What a handler returns; the actor is the subject of the claims.
pub data Body : Type 0 where
  alive : Body
  ready : String → Body
  healthy : Body
  access_token : String → Body
  ingested : ℕ → String → Body
  run_result : Fields → String → TaxRunWorkflow → Body
  reviewed : TaxRunWorkflow → Body
  tax_findings : List TaxFinding → Body
  evidence_file : String → Body
  managed_evidence : String → StoredObject → Body
  version_hash : String → String → Body
  answered : Answer → Body
  cases_opened : List CaseItem → String → Body
  open_case_list : List ControlCase → Body
  moved_case : Transitioned → Body
  history : List ControlCaseTransition → Body
  upserted : ℕ → String → Body
  inserted : ℕ → String → Body
  graph_findings : List RiskFinding → Body
  audit_verdict : Verdict → Body
  config : ConfigCheck → Body
