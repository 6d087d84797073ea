-- ===== src/Preflight.antt =====
-- src/flagship_lab/preflight.py: the checks before a deployment. What the server answers is a
-- parameter: the role of the connection, the revisions of its schema, and its tables.
pub mod Ready
use flagship_lab.RiskGraph.Investigate.{sorted_set}
use flagship_lab.Prelude.Text.{starts_with, ◌<>◌, join_with}
use flagship_lab.Tx.{one, one_or_none}
use flagship_lab.Result.{Result, reject_if, ◌>=>◌, runtime_error, err, ok}
use flagship_lab.Prelude.{
  String, Bool, Option, List, ℕ, ◌∷◌, last?, true, select, not, ◌==◌, false, some, [], none, ◌||◌,
  eqb, length, any,
}

abbrev pub expected_revision : String
expected_revision = "20260812_0005"

abbrev pub tenant_tables : List String
tenant_tables =
    "audit_events" ∷ "tax_transactions" ∷ "tax_rule_runs" ∷ "tax_findings" ∷ "tax_run_workflow"
    ∷ "regulation_documents" ∷ "control_events" ∷ "control_cases" ∷ "control_case_transitions"
    ∷ "graph_entities" ∷ "graph_edges" ∷ "idempotency_records" ∷ "outbox_events"
    ∷ "dead_letter_events" ∷ "consumer_receipts" ∷ []

-- The arguments of a run.
pub record Arguments : Type 0 where
  pub database_url : String
  pub issuer : String
  pub audience : String
  pub jwks_url : String
  pub backup_key_base64 : String
  pub allow_dev_tokens : Bool

pub record RoleRow : Type 0 where
  pub name : String
  pub rolsuper : Bool
  pub rolbypassrls : Bool

pub record TableRow : Type 0 where
  pub relname : String
  pub owner : String
  pub relrowsecurity : Bool
  pub relforcerowsecurity : Bool

-- What the three queries return.
pub record Catalog : Type 0 where
  pub roles : List RoleRow
  pub revisions : List String
  pub relations : List TableRow

-- What a run that succeeds reports, beside constants.
pub record Report : Type 0 where
  pub user : String
  pub forced_rls_tables : ℕ
  pub schema_revision : String

-- `_backup_key`: `b64decode` is the strict decoder, which returns the bytes of a valid text.
unfoldable pub backup_key : (String → Option (List ℕ)) → String → Result (Unit {0})
backup_key b64decode encoded = elim (b64decode encoded) [
  | none ↦ err (runtime_error "backup key must be valid base64")
  | some key ↦
      reject_if (not (eqb (length key) 32))
        (runtime_error "backup key must decode to exactly 32 bytes")
]

-- `tables[name]`, of the dict that keeps the last row of a name.
unfoldable pub table_of : String → List TableRow → Option TableRow
table_of name rows = last? (select (λ r. r.relname == name) rows)

abbrev pub absent : List TableRow → String → Bool
absent rows name = elim (table_of name rows) [ none ↦ true | some _ ↦ false ]

abbrev pub owned_by : String → List TableRow → String → Bool
owned_by role rows name = elim (table_of name rows) [ none ↦ false | some r ↦ r.owner == role ]

abbrev pub unprotected : List TableRow → String → Bool
unprotected rows name = elim (table_of name rows) [
  | none ↦ false
  | some r ↦ not r.relrowsecurity || not r.relforcerowsecurity
]

abbrev is_nil : List String → Bool
is_nil [] = true
is_nil (_ ∷ _) = false

-- `revision != EXPECTED_REVISION`, of a value that may be `None`.
abbrev pub other_revision : Option String → Bool
other_revision none = true
other_revision (some r) = not (r == expected_revision)

-- The checks on the tables; the names that a message lists are sorted.
unfoldable pub check_tables : String → List TableRow → Result (Unit {0})
check_tables role rows =
    let missing = select (absent rows) tenant_tables in
    let open_tables = select (unprotected rows) tenant_tables in
    reject_if (not (is_nil missing))
      (runtime_error ("missing tenant tables: " <> join_with ", " (sorted_set missing)))
    >=> λ _.
        reject_if (any (owned_by role rows) tenant_tables)
          (runtime_error "request database role must not own tenant tables")
        >=> λ _. reject_if (not (is_nil open_tables)) (
            runtime_error
              ("tenant tables must enforce RLS: " <> join_with ", " (sorted_set open_tables)))

-- What is checked on the connection.
unfoldable pub check_database : Catalog → Result Report
check_database catalog = one catalog.roles >=> λ role.
    reject_if role.rolsuper (runtime_error "request database role must not be superuser") >=> λ _.
    reject_if role.rolbypassrls (runtime_error "request database role must be NOBYPASSRLS") >=> λ _.
    one_or_none catalog.revisions >=> λ revision.
    reject_if (other_revision revision)
      (runtime_error ("database schema must be at revision " <> expected_revision))
    >=> λ _. check_tables role.name catalog.relations >=> λ _. ok (record {
      user = role.name;
      forced_rls_tables = length tenant_tables;
      schema_revision = expected_revision;
    })

unfoldable pub run_preflight : (String → Option (List ℕ)) → Arguments → Catalog → Result Report
run_preflight b64decode args catalog =
    reject_if (not (starts_with "postgresql+psycopg://" args.database_url))
      (runtime_error "production database must use postgresql+psycopg")
    >=> λ _.
        reject_if args.allow_dev_tokens
          (runtime_error "development token endpoint must be disabled")
        >=> λ _.
            reject_if
              (not (starts_with "https://" args.issuer)
                || args.audience == ""
                || not (starts_with "https://" args.jwks_url))
              (runtime_error "production OIDC requires HTTPS issuer/JWKS and audience")
            >=> λ _. backup_key b64decode args.backup_key_base64 >=> λ _. check_database catalog
