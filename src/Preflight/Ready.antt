-- ===== src/Preflight/Ready.antt =====
-- src/flagship_lab/preflight.py: what a run that succeeds has established.
use flagship_lab.Tx.{one, one_or_none}
use flagship_lab.Tx.Bind.{one-ok, one_or_none-some}
use flagship_lab.Prelude.Text.{starts_with}
use flagship_lab.Result.{ok, reject_if-ok, reject_if-passed, bind-ok}
use flagship_lab.Preflight.{
  check_tables, TableRow, Arguments, is_nil, absent, table_of, Catalog, owned_by, tenant_tables,
  Report, unprotected, RoleRow, expected_revision, backup_key, other_revision, run_preflight,
  check_database,
}
use flagship_lab.Prelude.{
  String, Option, select, any, List, not, ℕ, Bool, ◌≡◌, All, false, some, [], ◌∷◌, ◌==◌, Bool-cases,
  true, arith, length, inl, Option-cases, refl, inr, ◌||◌, eqb, eq_iff, none,
}

-- A tenant table that is there, is owned by another role, and forces row level security.
pub record IsProtected (role : String) (rows : List TableRow) (name : String) : Type 0 where
  pub row : TableRow
  pub found : table_of name rows ≡ some row
  pub other_owner : (row.owner == role) ≡ false
  pub row_security : row.relrowsecurity ≡ true
  pub forced : row.relforcerowsecurity ≡ true

-- The server is one that a deployment may use.
pub record IsSafeServer (catalog : Catalog) (report : Report) : Type 0 where
  pub role : RoleRow
  pub one_role : catalog.roles ≡ role ∷ []
  pub no_superuser : role.rolsuper ≡ false
  pub no_bypass : role.rolbypassrls ≡ false
  pub at_revision : catalog.revisions ≡ expected_revision ∷ []
  pub tables_protected : All (IsProtected role.name catalog.relations) tenant_tables
  pub user_named : report.user ≡ role.name

-- The arguments and the server are those of a deployment.
pub record IsReady (b64decode : String → Option (List ℕ)) (args : Arguments) (catalog : Catalog)
    (report : Report) : Type 0 where
  pub postgresql : starts_with "postgresql+psycopg://" args.database_url ≡ true
  pub no_dev_tokens : args.allow_dev_tokens ≡ false
  pub issuer_https : starts_with "https://" args.issuer ≡ true
  pub audience_given : (args.audience == "") ≡ false
  pub jwks_https : starts_with "https://" args.jwks_url ≡ true
  pub key : List ℕ
  pub decoded : b64decode args.backup_key_base64 ≡ some key
  pub key_length : length key ≡ 32
  pub server : IsSafeServer catalog report

select-nil :
    {A : Type 0} (p : A → Bool) (xs : List A) → select p xs ≡ [] → All (λ x. p x ≡ false) xs
unfolding select
select-nil p [] h = tt
select-nil p (x ∷ xs) h = elim (Bool-cases (p x)) [
  | inl holds ↦ absurd (ground (arith, rw holds at h))
  | inr fails ↦ (fails, select-nil p xs (rw fails at h))
]

any-false : {A : Type 0} (p : A → Bool) (xs : List A) → any p xs ≡ false → All (λ x. p x ≡ false) xs
unfolding any
any-false p [] h = tt
any-false p (x ∷ xs) h = elim (Bool-cases (p x)) [
  | inl holds ↦ absurd (ground (arith, rw holds at h))
  | inr fails ↦ (fails, any-false p xs (rw fails at h))
]

is_nil-nil : (xs : List String) → not (is_nil xs) ≡ false → xs ≡ []
is_nil-nil [] h = refl
is_nil-nil (x ∷ xs) h = absurd (ground arith)

table_of-IsProtected :
    (role : String) (rows : List TableRow) (name : String)
    → absent rows name ≡ false
    → owned_by role rows name ≡ false
    → unprotected rows name ≡ false
    → IsProtected role rows name
table_of-IsProtected role rows name here other safe = elim (Option-cases (table_of name rows)) [
  | inl gone ↦ absurd (ground (arith, rw (absent, gone) at here))
  | inr (row, found) ↦
      let foreign : (row.owner == role) ≡ false = rw (owned_by, found) at other in
      let both : (not row.relrowsecurity || not row.relforcerowsecurity) ≡ false =
        rw (unprotected, found) at safe in
      record {
        row = row;
        found = found;
        other_owner = foreign;
        row_security = ground arith;
        forced = ground arith;
      }
]

tables-IsProtected :
    (role : String) (rows : List TableRow) (names : List String)
    → All (λ name. absent rows name ≡ false) names
    → All (λ name. owned_by role rows name ≡ false) names
    → All (λ name. unprotected rows name ≡ false) names
    → All (IsProtected role rows) names
tables-IsProtected role rows [] a b c = tt
tables-IsProtected role rows (n ∷ ns) a b c =
    (table_of-IsProtected role rows n a.0 b.0 c.0, tables-IsProtected role rows ns a.1 b.1 c.1)

check_tables-IsProtected :
    (role : String) (rows : List TableRow)
    → check_tables role rows ≡ ok tt
    → All (IsProtected role rows) tenant_tables
unfolding check_tables
check_tables-IsProtected role rows h =
    let (present, h1) = reject_if-ok _ _ _ h in
    let (foreign, h2) = reject_if-ok _ _ _ h1 in
    let safe = reject_if-passed _ _ h2 in
    tables-IsProtected role rows tenant_tables
      (select-nil (absent rows) tenant_tables (is_nil-nil _ present))
      (any-false (owned_by role rows) tenant_tables foreign)
      (select-nil (unprotected rows) tenant_tables (is_nil-nil _ safe))

backup_key-ok :
    (b64decode : String → Option (List ℕ)) (encoded : String)
    → backup_key b64decode encoded ≡ ok tt
    → (key : List ℕ) × (b64decode encoded ≡ some key) × (length key ≡ 32)
unfolding backup_key
backup_key-ok b64decode encoded h = elim (Option-cases (b64decode encoded)) [
  | inl bad ↦ absurd (ground (arith, rw (backup_key, bad) at h))
  | inr (key, e) ↦ (
    key,
    e,
    ground (arith, reject_if-passed (not (eqb (length key) 32)) _ (rw (backup_key, e) at h)),
  )
]

revision-ok : (o : Option String) → other_revision o ≡ false → o ≡ some expected_revision
revision-ok none h = absurd (ground arith)
revision-ok (some r) h = ground (arith, eq_iff r expected_revision)

check_database-ok :
    (catalog : Catalog) (report : Report)
    → check_database catalog ≡ ok report
    → IsSafeServer catalog report
unfolding check_database
check_database-ok catalog report h =
    let (role, one_ok, h5) = bind-ok (one catalog.roles) _ h in
    let (super, h6) = reject_if-ok role.rolsuper _ _ h5 in
    let (bypass, h7) = reject_if-ok role.rolbypassrls _ _ h6 in
    let (revision, rev_ok, h8) = bind-ok (one_or_none catalog.revisions) _ h7 in
    let (same, h9) = reject_if-ok (other_revision revision) _ _ h8 in
    let (unit, tables_ok, h10) = bind-ok (check_tables role.name catalog.relations) _ h9 in
    let known = revision-ok revision same in
    record {
      role = role;
      one_role = one-ok catalog.roles one_ok;
      no_superuser = super;
      no_bypass = bypass;
      at_revision = one_or_none-some catalog.revisions (cc (rev_ok, known));
      tables_protected = check_tables-IsProtected role.name catalog.relations tables_ok;
      user_named = ground arith;
    }

-- A run that succeeds has a PostgreSQL address, no development tokens, an identity provider over
-- HTTPS with an audience and a backup key of 32 bytes; the server has one role for the connection,
-- which is no superuser and cannot bypass row security, and is at the expected revision alone;
-- every tenant table is there, belongs to another role and forces row level security.
pub run_preflight-IsReady :
    (b64decode : String → Option (List ℕ)) (args : Arguments) (catalog : Catalog) (report : Report)
    → run_preflight b64decode args catalog ≡ ok report
    → IsReady b64decode args catalog report
unfolding run_preflight
run_preflight-IsReady b64decode args catalog report h =
    let (url, h1) =
      reject_if-ok (not (starts_with "postgresql+psycopg://" args.database_url)) _ _ h in
    let (dev, h2) = reject_if-ok args.allow_dev_tokens _ _ h1 in
    let (oidc, h3) =
      reject_if-ok
        (not (starts_with "https://" args.issuer)
          || args.audience == ""
          || not (starts_with "https://" args.jwks_url))
        _ _ h2 in
    let (unit, key_ok, h4) = bind-ok (backup_key b64decode args.backup_key_base64) _ h3 in
    let (key, decoded, key_length) = backup_key-ok b64decode args.backup_key_base64 key_ok in
    record {
      postgresql = ground arith;
      no_dev_tokens = dev;
      issuer_https = ground arith;
      audience_given = ground arith;
      jwks_https = ground arith;
      key = key;
      decoded = decoded;
      key_length = key_length;
      server = check_database-ok catalog report h4;
    }
