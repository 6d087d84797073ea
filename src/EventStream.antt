-- ===== src/EventStream.antt =====
-- src/flagship_lab/event_stream.py: the local event stream, its hash chain, and the processor with
-- its checkpoint. A file is its lines, and one that does not exist has none. `int(value)` is taken
-- of integers and Booleans; a stream that this program wrote has no other offsets.
use flagship_lab.Json.Get.{add_field, without}
use flagship_lab.Prelude.Int.{pos}
use flagship_lab.Result.{Result, ok, err, type_error, value_error}
use flagship_lab.Tx.{World, Env}
use flagship_lab.Json.{canonical_json, Json, Fields, field, obj, bool, int, text, end}
use flagship_lab.Prelude.Text.{str_nat, is_blank, ◌<>◌}
use flagship_lab.Prelude.{
  List, Bool, String, Option, ℕ, some, ◌==◌, eqb, ◌∷◌, take, if◌then◌else◌, none, true, false, ◌+◌,
  ◌++◌, length, leb, [], suc, not, ◌||◌,
}
use flagship_lab.ControlPulse.{
  ControlEvent, ControlPulseService, CaseItem, asdict, ingest_and_evaluate,
}
use flagship_lab.Core.{loads, sha256_json}
use flagship_lab.Result.{◌>=>◌}
use flagship_lab.TaxRules.{item}

pub record JsonlEventStream : Type 0 where
  pub lines : List String

-- `record[key]` of a parsed line.
abbrev pub key_of : String → Json → Result Json
key_of k (obj fs) = item k fs
key_of k _ = err type_error

-- `int(value)` of an integer that is not negative.
abbrev pub int_value : Json → Result ℕ
int_value (int (pos n)) = ok n
int_value (bool true) = ok 1
int_value (bool false) = ok 0
int_value _ = err (value_error "invalid literal for int()")

-- The loop of `read_from`.
unfoldable pub read_from : Env → ℕ → List String → Result (List Json)
unfolding loads item is_blank
read_from env offset [] = ok []
read_from env offset (line ∷ lines) =
    let rest = read_from env offset lines in
    if is_blank line
    then rest
    else (loads env line >=> λ r. key_of "offset" r >=> λ o.
        int_value o >=> λ n. rest >=> λ records. ok (if leb offset n then r ∷ records else records))

-- The offset and the previous hash of the next record.
unfoldable pub next_position : List Json → Result (ℕ × Json)
unfolding item
next_position [] = ok (0, text "GENESIS")
next_position (r ∷ []) = key_of "offset" r >=> λ o.
    int_value o >=> λ n. key_of "record_hash" r >=> λ hash. ok (n + 1, hash)
next_position (r ∷ q ∷ rs) = next_position (q ∷ rs)

abbrev pub unsigned : ℕ → String → ControlEvent → Json → Fields
unsigned offset now event previous = field "offset" (int (pos offset)) (
    field "recorded_at" (text now)
      (field "event" (asdict event) (field "previous_hash" previous end)))

-- `append` at the clock reading `now`: the record, and the file with its line.
unfoldable pub append :
    Env → String → ControlEvent → JsonlEventStream → Result (Json × JsonlEventStream)
unfolding read_from next_position sha256_json canonical_json asdict
append env now event stream = read_from env 0 stream.lines >=> λ records.
    next_position records >=> λ position.
    let material = unsigned position.0 now event position.1 in
    let signed = obj (add_field material "record_hash" (text (sha256_json env (obj material)))) in
    ok (signed, record { lines = stream.lines ++ canonical_json signed ∷ [] })

-- `value == n`
abbrev equals_int : Json → ℕ → Bool
equals_int v n = elim (int_value v) [ ok m ↦ eqb m n | err _ ↦ false ]

abbrev json_eq : Json → Json → Bool
json_eq u v = canonical_json u == canonical_json v

pub record StreamVerdict : Type 0 where
  pub valid : Bool
  pub records : ℕ
  pub broken_hash : Option Json

abbrev sealed : Env → Json → Json → Bool
sealed env (obj fs) supplied =
    json_eq (text (sha256_json env (obj (without "record_hash" fs)))) supplied
sealed env _ supplied = false

-- The loop of `verify`.
unfoldable pub verify_records : Env → Json → ℕ → List Json → Result StreamVerdict
unfolding item without sha256_json canonical_json
verify_records env previous expected [] =
    ok (record { valid = true; records = expected; broken_hash = none })
verify_records env previous expected (r ∷ rs) = key_of "record_hash" r >=> λ supplied.
    key_of "offset" r >=> λ offset.
    let broken = ok (record { valid = false; records = expected; broken_hash = some supplied }) in
    let rest = verify_records env supplied (suc expected) rs in
    if not (equals_int offset expected)
    then broken
    else (key_of "previous_hash" r >=> λ before.
        if not (json_eq before previous) || not (sealed env r supplied) then broken else rest)

unfoldable pub verify : Env → JsonlEventStream → Result StreamVerdict
unfolding read_from verify_records
verify env stream = read_from env 0 stream.lines >=> verify_records env (text "GENESIS") 0

-- `ControlEvent(**record["event"])`, with the types that the fields are declared with.
abbrev text_at : String → Fields → Result String
text_at k fs = item k fs >=> λ v. elim v [ text s ↦ ok s | _ ↦ err type_error ]

abbrev bool_at : String → Fields → Result Bool
bool_at k fs = item k fs >=> λ v. elim v [ bool b ↦ ok b | _ ↦ err type_error ]

abbrev fields_at : String → Fields → Result Fields
fields_at k fs = item k fs >=> λ v. elim v [ obj gs ↦ ok gs | _ ↦ err type_error ]

unfoldable pub to_event : Json → Result ControlEvent
unfolding item
to_event (obj fs) = text_at "event_id" fs >=> λ event_id. text_at "event_type" fs >=> λ event_type.
    text_at "actor" fs >=> λ actor. text_at "resource" fs >=> λ resource.
    text_at "occurred_at" fs >=> λ occurred_at. bool_at "approved" fs >=> λ approved.
    bool_at "privileged" fs >=> λ privileged. text_at "outcome" fs >=> λ outcome.
    fields_at "payload" fs >=> λ payload. ok (record {
      event_id = event_id;
      event_type = event_type;
      actor = actor;
      resource = resource;
      occurred_at = occurred_at;
      approved = approved;
      privileged = privileged;
      outcome = outcome;
      payload = payload;
    })
to_event _ = err type_error

-- The world with the text of the checkpoint file.
pub record ProcessorState : Type 0 where
  pub world : World
  pub checkpoint_text : Option String

-- `checkpoint()`
unfoldable pub checkpoint : Env → Option String → Result ℕ
unfolding loads item
checkpoint env none = ok 0
checkpoint env (some s) = loads env s >=> λ v. key_of "next_offset" v >=> int_value

-- `_write_checkpoint(n)`; `json.dumps` puts a space after the colon.
unfoldable pub write_checkpoint : ℕ → ProcessorState → ProcessorState
unfolding str_nat
write_checkpoint n s = record s {
  checkpoint_text = some ("{\"next_offset\": " <> str_nat n <> "}");
}

pub record Progress : Type 0 where
  pub next_offset : ℕ
  pub cases : ℕ

-- One record: its event is evaluated in a transaction of its own, then the checkpoint is written.
unfoldable pub process_record :
    Env → ControlPulseService → Json → Progress → ProcessorState → Result Progress × ProcessorState
unfolding to_event item ingest_and_evaluate write_checkpoint
process_record env service r progress s = elim (key_of "event" r >=> to_event) [
  | err e ↦ (err e, s)
  | ok event ↦ evaluated (ingest_and_evaluate env service event s.world)
]
  where
    advanced : List CaseItem → ProcessorState → Result ℕ → Result Progress × ProcessorState
    advanced cases t (err e) = (err e, t)
    advanced cases t (ok n) = (
      ok (record { next_offset = n + 1; cases = progress.cases + length cases }),
      write_checkpoint (n + 1) t,
    )

    evaluated : Result (List CaseItem) × World → Result Progress × ProcessorState
    evaluated (err e, w) = (err e, record s { world = w })
    evaluated (ok cases, w) =
        advanced cases (record s { world = w }) (key_of "offset" r >=> int_value)

unfoldable pub process_records :
    Env
    → ControlPulseService
    → List Json
    → Progress
    → ProcessorState
    → Result Progress × ProcessorState
unfolding process_record
process_records env service [] progress s = (ok progress, s)
process_records env service (r ∷ rs) progress s =
    go (process_record env service r progress s) (λ p t. process_records env service rs p t)
  where
    go :
        Result Progress × ProcessorState
        → (Progress → ProcessorState → Result Progress × ProcessorState)
        → Result Progress × ProcessorState
    go (err e, t) next = (err e, t)
    go (ok p, t) next = next p t

abbrev at_most : Option ℕ → List Json → List Json
at_most none rs = rs
at_most (some n) rs = take n rs

-- The counts that a run returns.
pub record Processed : Type 0 where
  pub start_offset : ℕ
  pub next_offset : ℕ
  pub processed : ℕ
  pub cases : ℕ

abbrev summary : ℕ → ℕ → Result Progress × ProcessorState → Result Processed × ProcessorState
summary start n (err e, s) = (err e, s)
summary start n (ok p, s) = (
  ok (record { start_offset = start; next_offset = p.next_offset; processed = n; cases = p.cases }),
  s,
)

unfoldable pub process_available :
    Env
    → ControlPulseService
    → JsonlEventStream
    → Option ℕ
    → ProcessorState
    → Result Processed × ProcessorState
unfolding checkpoint read_from process_records
process_available env service stream max_records s = elim (checkpoint env s.checkpoint_text) [
  | err e ↦ (err e, s)
  | ok start ↦ elim (read_from env start stream.lines) [
    | err e ↦ (err e, s)
    | ok all_records ↦
        let records = at_most max_records all_records in
        summary start (length records)
          (process_records env service records (record { next_offset = start; cases = 0 }) s)
  ]
]

unfoldable pub replay :
    Env
    → ControlPulseService
    → JsonlEventStream
    → ProcessorState
    → Result Processed × ProcessorState
unfolding write_checkpoint process_available
replay env service stream s = process_available env service stream none (write_checkpoint 0 s)
