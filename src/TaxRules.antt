-- ===== src/TaxRules.antt =====
-- src/flagship_lab/tax_rules.py: the rule packs, their validation and the evaluation of one rule on
-- one row. A pack is the JSON value that the caller gives.
pub mod Validate
use flagship_lab.Prelude.Int.{pos, negsuc}
use flagship_lab.Json.Get.{get_field, equals_text}
use flagship_lab.Schema.{TaxTransactionRow}
use flagship_lab.Result.{
  Result, ok, err, key_error, value_error, type_error, invalid_operation, ◌>=>◌,
}
use flagship_lab.Decimal.{
  multiply, at_least, parse_decimal, Decimal, decimal_of_nat, quantize, str_decimal, above,
  distance,
}
use flagship_lab.Json.{
  Json, Items, Fields, text, nil, int, null, arr, field, obj, cons, decimal, end, real,
}
use flagship_lab.Prelude.{
  String, Bool, List, Option, ℕ, true, if◌then◌else◌, false, some, none, ◌==◌, ◌∷◌, not, ◌||◌, suc,
  [],
}

-- A value of a database row.
pub data Cell : Type 0 where
  absent : Cell
  text_cell : String → Cell
  int_cell : ℕ → Cell
  decimal_cell : Decimal → Cell

abbrev optional_text : Option String → Cell
optional_text none = absent
optional_text (some s) = text_cell s

-- `row[field]`
unfoldable pub row_cell : TaxTransactionRow → String → Result Cell
row_cell r f =
    if f == "id"
    then ok (int_cell r.id)
    else (if f == "tenant_id"
        then ok (text_cell r.tenant_id)
        else (if f == "invoice_id"
            then ok (text_cell r.invoice_id)
            else (if f == "seller_tax_id"
                then ok (optional_text r.seller_tax_id)
                else (if f == "buyer_tax_id"
                    then ok (optional_text r.buyer_tax_id)
                    else (if f == "invoice_date"
                        then ok (text_cell r.invoice_date)
                        else (if f == "amount"
                            then ok (decimal_cell r.amount)
                            else (if f == "tax_rate"
                                then ok (decimal_cell r.tax_rate)
                                else (if f == "tax_amount"
                                    then ok (decimal_cell r.tax_amount)
                                    else (if f == "currency"
                                        then ok (text_cell r.currency)
                                        else (if f == "source_hash"
                                            then ok (text_cell r.source_hash)
                                            else (if f == "ingested_at"
                                                then ok (text_cell r.ingested_at)
                                                else err (key_error f))))))))))))

-- `row[field]` for a field that is named by a JSON value.
abbrev pub cell_at : TaxTransactionRow → Json → Result Cell
cell_at r (text f) = row_cell r f
cell_at r _ = err (key_error "not a column")

-- `rule[key]`
unfoldable pub item : String → Fields → Result Json
unfolding get_field
item k fs = elim (get_field k fs) [ none ↦ err (key_error k) | some v ↦ ok v ]

-- `Decimal(str(cell))`
unfoldable pub cell_decimal : Cell → Result Decimal
unfolding parse_decimal decimal_of_nat
cell_decimal absent = err invalid_operation
cell_decimal (text_cell s) = parse_decimal s
cell_decimal (int_cell n) = ok (decimal_of_nat n)
cell_decimal (decimal_cell d) = ok d

-- `Decimal(str(value))` of a value of the pack.
unfoldable pub json_decimal : Json → Result Decimal
unfolding parse_decimal
json_decimal (int (pos n)) = ok (record { negative = false; coefficient = n; scale = 0 })
json_decimal (int (negsuc n)) = ok (record { negative = true; coefficient = suc n; scale = 0 })
json_decimal (real r) = parse_decimal r
json_decimal (decimal d) = parse_decimal d
json_decimal (text s) = parse_decimal s
json_decimal _ = err invalid_operation

abbrev pub cell_json : Cell → Json
cell_json absent = null
cell_json (text_cell s) = text s
cell_json (int_cell n) = int (pos n)
cell_json (decimal_cell d) = decimal (str_decimal d)

-- `cell in (None, "")`
abbrev pub is_missing : Cell → Bool
is_missing absent = true
is_missing (text_cell s) = s == ""
is_missing _ = false

abbrev char_items : String → Items
char_items String.[] = nil
char_items (String.◌∷◌ c s) = cons (text (String.◌∷◌ c "")) (char_items s)

abbrev key_items : Fields → Items
key_items end = nil
key_items (field k v fs) = cons (text k) (key_items fs)

-- `for x in value`: a list, the keys of a `dict`, or the characters of a text.
unfoldable pub iterate : Json → Result Items
iterate (arr xs) = ok xs
iterate (obj fs) = ok (key_items fs)
iterate (text s) = ok (char_items s)
iterate (decimal s) = ok (char_items s)
iterate _ = err type_error

-- `[field for field in fields if row[field] in (None, "")]`
unfoldable pub missing_fields : TaxTransactionRow → Items → Result Items
unfolding row_cell
missing_fields r nil = ok nil
missing_fields r (cons f fs) = cell_at r f >=> λ c.
    missing_fields r fs >=> λ rest. ok (if is_missing c then cons f rest else rest)

-- `for field in factors: expected *= Decimal(str(row[field]))`
unfoldable pub product : TaxTransactionRow → Items → Decimal → Result Decimal
unfolding row_cell cell_decimal multiply
product r nil acc = ok acc
product r (cons f fs) acc =
    cell_at r f >=> λ c. cell_decimal c >=> λ d. product r fs (multiply acc d)

-- Whether the rule matched, and its evidence.
pub record Outcome : Type 0 where
  pub matched : Bool
  pub evidence : Fields

abbrev pub is_empty : Items → Bool
is_empty nil = true
is_empty _ = false

unfoldable pub required_all : Fields → TaxTransactionRow → Result Outcome
unfolding item iterate missing_fields
required_all rule r = item "fields" rule >=> λ fields. iterate fields >=> λ names.
    missing_fields r names >=> λ missing. ok (record {
      matched = not (is_empty missing);
      evidence = field "missing_fields" (arr missing) end;
    })

-- `rule.get("tolerance", 0)`
abbrev tolerance_of : Option Json → Result Decimal
tolerance_of none = ok (record { negative = false; coefficient = 0; scale = 0 })
tolerance_of (some v) = json_decimal v

abbrev pub one_decimal : Decimal
one_decimal = record { negative = false; coefficient = 1; scale = 0 }

unfoldable pub computed_equal : Fields → TaxTransactionRow → Result Outcome
unfolding item iterate product row_cell cell_decimal json_decimal get_field quantize above distance
    str_decimal
computed_equal rule r = item "factors" rule >=> λ factors. iterate factors >=> λ names.
    product r names one_decimal >=> λ raw. quantize 2 raw >=> λ expected.
    item "actual" rule >=> λ name. cell_at r name >=> λ c. cell_decimal c >=> λ actual.
    tolerance_of (get_field "tolerance" rule) >=> λ tolerance. ok (record {
      matched = above (distance expected actual) tolerance;
      evidence =
          field "expected" (text (str_decimal expected))
            (field "actual" (text (str_decimal actual)) end);
    })

abbrev pub mem_text : String → List String → Bool
mem_text s [] = false
mem_text s (x ∷ xs) = x == s || mem_text s xs

-- `value in context[name]`: the one set of the context holds texts.
abbrev in_context_set : List String → Json → Cell → Result Bool
in_context_set duplicates (text name) c =
    if name == "duplicate_invoice_ids"
    then ok (elim c [ text_cell s ↦ mem_text s duplicates | _ ↦ false ])
    else err (key_error name)
in_context_set duplicates _ c = err (key_error "not a set of the context")

unfoldable pub in_set : Fields → TaxTransactionRow → List String → Result Outcome
unfolding item row_cell
in_set rule r duplicates = item "field" rule >=> λ name. cell_at r name >=> λ c.
    item "context" rule >=> λ set. in_context_set duplicates set c >=> λ found.
    ok (record { matched = found; evidence = field "value" (cell_json c) end })

unfoldable pub gte : Fields → TaxTransactionRow → Result Outcome
unfolding item row_cell cell_decimal json_decimal at_least str_decimal
gte rule r = item "field" rule >=> λ name. cell_at r name >=> λ c. cell_decimal c >=> λ actual.
    item "value" rule >=> λ v. json_decimal v >=> λ threshold. ok (record {
      matched = at_least actual threshold;
      evidence =
          field "actual" (text (str_decimal actual))
            (field "threshold" (text (str_decimal threshold)) end);
    })

unfoldable pub evaluate_rule : Fields → TaxTransactionRow → List String → Result Outcome
unfolding item required_all computed_equal in_set gte
evaluate_rule rule r duplicates = item "operator" rule >=> λ operator.
    if equals_text (some operator) "required_all"
    then required_all rule r
    else (if equals_text (some operator) "computed_equal"
        then computed_equal rule r
        else (if equals_text (some operator) "in_set"
            then in_set rule r duplicates
            else (if equals_text (some operator) "gte"
                then gte rule r
                else err (value_error "unsupported operator"))))
