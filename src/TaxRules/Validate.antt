-- ===== src/TaxRules/Validate.antt =====
-- src/flagship_lab/tax_rules.py: the default pack and `validate_rule_pack`. A code that is no text
-- is taken by its JSON text, so 1, 1.0 and True, which Python takes as one code, are told apart.
use flagship_lab.Prelude.Int.{pos}
use flagship_lab.Result.{◌>=>◌}
use flagship_lab.TaxRules.{mem_text}
use flagship_lab.Prelude.Text.{str_leb}
use flagship_lab.Result.{Result, Failure, ok, err, value_error, type_error}
use flagship_lab.Json.{
  canonical_json, Items, Fields, field, Json, cons, obj, text, bool, arr, end, nil, int, real,
  decimal, null,
}
use flagship_lab.Json.Get.{get_field, equals_text}
use flagship_lab.Prelude.{
  zero, String, Option, List, Bool, true, some, ◌≡◌, ◌||◌, false, none, refl, not, if◌then◌else◌,
  [], ◌==◌, ◌∷◌,
}

-- `not value`, with a missing key read as None.
abbrev pub is_falsy : Option Json → Bool
is_falsy none = true
is_falsy (some null) = true
is_falsy (some (bool b)) = not b
is_falsy (some (int (pos zero))) = true
is_falsy (some (real r)) = r == "0.0" || r == "-0.0"
is_falsy (some (decimal d)) = d == ""
is_falsy (some (text s)) = s == ""
is_falsy (some (arr nil)) = true
is_falsy (some (obj end)) = true
is_falsy (some _) = false

-- A value that a set can hold: neither a list nor a `dict`.
abbrev pub is_hashable : Option Json → Bool
is_hashable (some (arr _)) = false
is_hashable (some (obj _)) = false
is_hashable _ = true

abbrev pub allowed_operator : Option Json → Bool
allowed_operator v =
    equals_text v "required_all"
    || equals_text v "computed_equal"
    || equals_text v "in_set"
    || equals_text v "gte"

abbrev pub allowed_severity : Option Json → Bool
allowed_severity v =
    equals_text v "LOW"
    || equals_text v "MEDIUM"
    || equals_text v "HIGH"
    || equals_text v "CRITICAL"

abbrev pub code_key : Option Json → String
code_key none = ""
code_key (some v) = canonical_json v

-- `if test: raise`
abbrev pub refuse : Bool → Failure → Result (Unit {0})
refuse true e = err e
refuse false e = ok tt

-- One round of the loop: the codes with the rule's own.
unfoldable pub validate_rule : List String → Json → Result (List String)
unfolding get_field
validate_rule codes (obj rule) =
    let code = get_field "code" rule in
    let operator = get_field "operator" rule in
    let severity = get_field "severity" rule in
    refuse (is_falsy code) (value_error "rule codes must be non-empty and unique") >=> λ _.
    refuse (not (is_hashable code)) type_error >=> λ _.
    refuse (mem_text (code_key code) codes) (value_error "rule codes must be non-empty and unique")
    >=> λ _. refuse (not (is_hashable operator)) type_error >=> λ _.
        refuse (not (allowed_operator operator)) (value_error "unsupported operator") >=> λ _.
        refuse (not (is_hashable severity)) type_error >=> λ _.
        refuse (not (allowed_severity severity)) (value_error "unsupported severity") >=> λ _.
        refuse (is_falsy (get_field "message" rule)) (value_error "missing message") >=> λ _.
        ok (code_key code ∷ codes)
validate_rule codes _ = err type_error

unfoldable pub validate_rules : List String → Items → Result (List String)
unfolding validate_rule
validate_rules codes nil = ok codes
validate_rules codes (cons rule rules) =
    validate_rule codes rule >=> λ more. validate_rules more rules

abbrev pub as_list : Option Json → Option Items
as_list (some (arr xs)) = some xs
as_list _ = none

unfoldable pub validate_rule_pack : Fields → Result (Unit {0})
unfolding get_field validate_rules
validate_rule_pack pack =
    let malformed = err (value_error "rule pack requires pack_id, version and rules") in
    if is_falsy (get_field "pack_id" pack) || is_falsy (get_field "version" pack)
    then malformed
    else elim (as_list (get_field "rules" pack)) [
      | none ↦ malformed
      | some rules ↦ validate_rules [] rules >=> λ _. ok tt
    ]

abbrev pub default_rules : Items
default_rules =
    cons
      (obj (
        field "code" (text "TAX_ID_REQUIRED") (
          field "operator" (text "required_all") (
            field "fields" (arr (cons (text "seller_tax_id") (cons (text "buyer_tax_id") nil)))
              (field "severity" (text "HIGH") (field "message" (text "交易对手税号缺失") end))))))
      (cons
        (obj (
          field "code" (text "VAT_RECALC") (
            field "operator" (text "computed_equal") (
              field "actual" (text "tax_amount") (
                field "factors" (arr (cons (text "amount") (cons (text "tax_rate") nil))) (
                  field "tolerance" (real "0.01") (
                    field "severity" (text "HIGH") (field "message" (text "税额与金额×税率不一致") end))))))))
        (cons
          (obj (
            field "code" (text "DUPLICATE_INVOICE") (
              field "operator" (text "in_set") (
                field "field" (text "invoice_id") (
                  field "context" (text "duplicate_invoice_ids")
                    (field "severity" (text "MEDIUM") (field "message" (text "发票号码重复") end)))))))
          (cons
            (obj (
              field "code" (text "EXTREME_AMOUNT") (
                field "operator" (text "gte") (
                  field "field" (text "amount") (
                    field "value" (int (pos 5000000)) (
                      field "severity" (text "MEDIUM")
                        (field "message" (text "金额超过演示阈值500万元") end)))))))
            nil)))

abbrev pub default_rule_pack : Fields
default_rule_pack =
    field "pack_id" (text "cn-tax-demo")
      (field "version" (text "2026.08.2") (field "rules" (arr default_rules) end))

-- The pack that is shipped passes.
default_rule_pack_valid : validate_rule_pack default_rule_pack ≡ ok tt
unfolding validate_rule_pack canonical_json str_leb
default_rule_pack_valid = refl
