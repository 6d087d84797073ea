-- ===== src/Decimal.antt =====
-- Python's `decimal.Decimal`, as taxflow.py and tax_rules.py use it, in the default context (28
-- digits): a sign, a coefficient and the number of digits behind the point. NaN and the infinities
-- are not modelled, and a value with a positive exponent is carried with its zeros written out.
use Prim.Native.Char.{code}
use flagship_lab.Prelude.Int.{ℤ, leb_ℤ, ◌-ℤ◌, pos_part, neg_part, pos}
use flagship_lab.Result.{Result, ok, err, invalid_operation}
use flagship_lab.Prelude.Text.{write_nat, write_fraction}
use Prim.Native.Nat.{max}
use mathlib.Core.Bool.{xor}
use Prim.Native.String.{[], ◌∷◌}
use flagship_lab.Prelude.{
  ℕ, Bool, String, Option, ◌/◌, ◌+◌, if◌then◌else◌, true, not, ◌≡◌, suc, false, ltb, ◌*◌, some, ◌^◌,
  leb, ◌-◌, ◌%◌, refl, zero, eqb, none, ◌&&◌,
}

pub record Decimal : Type 0 where
  pub negative : Bool
  pub coefficient : ℕ
  pub scale : ℕ

abbrev pub precision : ℕ
precision = 28

-- `n / 10 ^ k`, rounded half up.
abbrev pub half_up : ℕ → ℕ → ℕ
half_up n k = (n + 10 ^ k / 2) / 10 ^ k

-- `n / 10 ^ k`, rounded half to even.
abbrev pub half_even : ℕ → ℕ → ℕ
half_even n k =
    let q = n / 10 ^ k in
    let r = n % 10 ^ k * 2 in
    if ltb r (10 ^ k) then q else (if ltb (10 ^ k) r then q + 1 else q + q % 2)

-- How many digits `n` has beyond the precision; `n` rounds of fuel are enough.
unfoldable pub excess : ℕ → ℕ → ℕ
excess zero n = 0
excess (suc fuel) n =
    let more = excess fuel (n / 10) in if ltb n (10 ^ precision) then 0 else more + 1

-- The coefficient `n` with `k` digits dropped: a dropped digit before the point stays as a zero.
unfoldable pub drop_digits : Bool → ℕ → ℕ → ℕ → Decimal
drop_digits negative n scale k =
    if leb k scale
    then record { negative = negative; coefficient = half_even n k; scale = scale - k }
    else record { negative = negative; coefficient = half_even n k * 10 ^ (k - scale); scale = 0 }

-- The result of an operation, rounded to the context's precision.
unfoldable pub in_context : Decimal → Decimal
unfolding excess drop_digits
in_context d = drop_digits d.negative d.coefficient d.scale (excess d.coefficient d.coefficient)

-- `value.quantize(quantum, rounding=ROUND_HALF_UP)` for a quantum of `places` digits.
unfoldable pub quantize : ℕ → Decimal → Result Decimal
quantize places d =
    let n =
      if leb d.scale places
      then d.coefficient * 10 ^ (places - d.scale)
      else half_up d.coefficient (d.scale - places) in
    if ltb n (10 ^ precision)
    then ok (record { negative = d.negative; coefficient = n; scale = places })
    else err invalid_operation

unfoldable pub multiply : Decimal → Decimal → Decimal
unfolding in_context
multiply a b = in_context (record {
  negative = xor a.negative b.negative;
  coefficient = a.coefficient * b.coefficient;
  scale = a.scale + b.scale;
})

-- The value as a multiple of `10 ^ (- places)`, for `places` at least its scale.
abbrev pub units : ℕ → Decimal → ℤ
units places d =
    let n = d.coefficient * 10 ^ (places - d.scale) in if d.negative then pos 0 -ℤ pos n else pos n

-- `abs(a - b)`
unfoldable pub distance : Decimal → Decimal → Decimal
unfolding in_context
distance a b =
    let places = max a.scale b.scale in
    let d = units places a -ℤ units places b in
    in_context (record { negative = false; coefficient = pos_part d + neg_part d; scale = places })

-- `a >= b`, exactly.
unfoldable pub at_least : Decimal → Decimal → Bool
at_least a b = let places = max a.scale b.scale in leb_ℤ (units places b) (units places a)

-- `a > b`, exactly.
unfoldable pub above : Decimal → Decimal → Bool
unfolding at_least
above a b = not (at_least b a)

-- The digits of `n`, at least `places` of them, and the point before the last `places`.
write_point : ℕ → ℕ → String → String
write_point zero n rest = write_nat n rest
write_point (suc places) n rest =
    write_nat (n / 10 ^ suc places) ("." ∷ write_fraction (suc places) n rest)

-- `str(value)`, where Python does not choose the scientific notation (a scale of at most 6 does
-- not).
unfoldable pub str_decimal : Decimal → String
unfolding write_point
str_decimal d =
    if d.negative
    then "-" ∷ write_point d.scale d.coefficient ""
    else write_point d.scale d.coefficient ""

-- What is read so far of a decimal literal: the coefficient, the digits behind the point, if the
-- point was met, and whether a digit was.
record Scan : Type 0 where
  coefficient : ℕ
  scale : ℕ
  pointed : Bool
  started : Bool

scan : String → Scan → Option Scan
scan [] s = some s
scan (c ∷ rest) s =
    let n = code c in
    let on_digit = scan rest (record {
      coefficient = s.coefficient * 10 + (n - 48);
      scale = if s.pointed then s.scale + 1 else s.scale;
      pointed = s.pointed;
      started = true;
    }) in
    let on_point = scan rest (record s { pointed = true }) in
    if leb 48 n && leb n 57
    then on_digit
    else (if eqb n b'.' && not s.pointed then on_point else none)

finish_scan : Bool → Option Scan → Result Decimal
finish_scan negative none = err invalid_operation
finish_scan negative (some s) =
    if s.started
    then ok (record { negative = negative; coefficient = s.coefficient; scale = s.scale })
    else err invalid_operation

abbrev no_digits : Scan
no_digits = record { coefficient = 0; scale = 0; pointed = false; started = false }

-- `Decimal(text)` for a sign, digits and a point; exponents are not modelled.
unfoldable pub parse_decimal : String → Result Decimal
unfolding scan finish_scan
parse_decimal [] = err invalid_operation
parse_decimal (c ∷ rest) =
    if eqb (code c) b'-'
    then finish_scan true (scan rest no_digits)
    else (if eqb (code c) b'+'
        then finish_scan false (scan rest no_digits)
        else finish_scan false (scan (c ∷ rest) no_digits))

unfoldable pub decimal_of_nat : ℕ → Decimal
decimal_of_nat n = record { negative = false; coefficient = n; scale = 0 }

abbrev vat : Result Decimal
vat = parse_decimal "13.0050"

vat_lem : vat ≡ ok (record { negative = false; coefficient = 130050; scale = 4 })
unfolding parse_decimal
vat_lem = refl

half_up_at_cents :
    quantize 2 (record { negative = true; coefficient = 130050; scale = 4 })
    ≡ ok (record { negative = true; coefficient = 1301; scale = 2 })
unfolding quantize
half_up_at_cents = refl

shown : str_decimal (record { negative = true; coefficient = 50; scale = 4 }) ≡ "-0.0050"
unfolding str_decimal write_nat write_fraction
shown = refl
