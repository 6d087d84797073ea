-- ===== src/Tx.antt =====
-- The program's surroundings, and database transactions.
-- `Env` holds what the source calls and does not implement: the hash, the JSON reader, the clock,
-- the generator of ids, Python's tables of Unicode, the driver, and the dialect of the engine.
pub mod Bind
pub use flagship_lab.Result.{
  Failure, value_error, key_error, type_error, json_error, invalid_operation, integrity_error,
  multiple_results, no_result, runtime_error, Result, ok, err,
}
use flagship_lab.Prelude.{ℕ, String, Bool, true, false, Option, none, some, List, [], ◌∷◌}
use flagship_lab.Json.{Json}
use flagship_lab.Schema.{Store}
use flagship_lab.Objects.{Version}

pub record Env : Type 0 where
  -- `hashlib.sha256(text.encode("utf-8")).hexdigest()`
  pub sha256_text : String → String
  -- `json.loads`; `none` is a `JSONDecodeError`
  pub json_loads : String → Option Json
  -- the readings of the clock, in order
  pub clock : ℕ → String
  -- the ids that `uuid.uuid4` returns, in order
  pub uuid4 : ℕ → String
  -- `str.upper` and `str.isalnum`
  pub upper : String → String
  pub isalnum : String → Bool
  -- the hour of `datetime.fromisoformat(text.replace("Z", "+00:00"))`; `none` is a `ValueError`
  pub iso_hour : String → Option ℕ
  -- `str(value)` of a value of a rule pack
  pub str : Json → String
  -- what the driver stores for a value that is bound to a column of texts; `none` is a refusal
  pub bind_text : Json → Option String
  -- `conn.dialect.name == "postgresql"`
  pub postgresql : Bool

-- One message of the outbox, as a publisher is handed it.
pub record EventEnvelope : Type 0 where
  pub id : ℕ
  pub tenant_id : String
  pub topic : String
  pub aggregate_id : String
  pub payload : Json
  pub created_at : String

-- The database, the number of clock readings and ids that were drawn, the messages that have left
-- the program, and the objects that were stored. A rollback restores the database alone.
pub record World : Type 0 where
  pub store : Store
  pub ticks : ℕ
  pub sent : List EventEnvelope
  pub objects : List Version

abbrev pub Tx {ℓ} : Type ℓ → Type ℓ
Tx A = World → Result A × World

abbrev pub and_then {ℓ κ} :
    {A : Type ℓ} {B : Type κ} → Result A × World → (A → Tx B) → Result B × World
and_then (ok a, w) f = f a w
and_then (err e, w) f = (err e, w)

infixl 5 ◌>>=◌ ◌>>◌
abbrev pub ◌>>=◌ {ℓ κ} : {A : Type ℓ} {B : Type κ} → Tx A → (A → Tx B) → Tx B
◌>>=◌ m f w = and_then (m w) f

abbrev pub ◌>>◌ {ℓ κ} : {A : Type ℓ} {B : Type κ} → Tx A → Tx B → Tx B
m >> k = m >>= λ _. k

abbrev pub pure {ℓ} : {A : Type ℓ} → A → Tx A
pure a w = (ok a, w)

abbrev pub raise {ℓ} : {A : Type ℓ} → Failure → Tx A
raise e w = (err e, w)

-- `if test: raise e`
abbrev pub raise_if : Bool → Failure → Tx (Unit {0})
raise_if true e w = (err e, w)
raise_if false e w = (ok tt, w)

abbrev pub gets {ℓ} : {A : Type ℓ} → (Store → A) → Tx A
gets f w = (ok (f w.store), w)

abbrev pub modify : (Store → Store) → Tx (Unit {0})
modify f w = (ok tt, record w { store = f w.store })

abbrev pub lift {ℓ} : {A : Type ℓ} → Result A → Tx A
lift r w = (r, w)

-- `Result.scalar_one_or_none`, `Result.one_or_none`
abbrev pub one_or_none : {A : Type 0} → List A → Result (Option A)
one_or_none [] = ok none
one_or_none (x ∷ []) = ok (some x)
one_or_none (x ∷ y ∷ rest) = err multiple_results

-- `Result.one`
abbrev pub one : {A : Type 0} → List A → Result A
one [] = err no_result
one (x ∷ []) = ok x
one (x ∷ y ∷ rest) = err multiple_results
