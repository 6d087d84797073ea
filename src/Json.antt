-- ===== src/Json.antt =====
-- src/flagship_lab/core.py, `canonical_json`: the values that Python's `json` prints and reads, and
-- `json.dumps(value, ensure_ascii=False, sort_keys=True, separators=(",", ":"), default=str)`.
-- A `dict` is the list of its items; a float is carried by its `repr`, a `Decimal` (or any value
-- that goes through `default=str`) by its `str`.
pub mod Get
use Prim.Native.Char.{Char, code}
use Prim.Native.String.{[], ◌∷◌}
use flagship_lab.Prelude.{
  ℕ, suc, ◌/◌, ◌%◌, String, ◌≡◌, refl, Bool, true, false, eqb, ltb, if◌then◌else◌,
}
use flagship_lab.Prelude.Int.{ℤ, pos, negsuc}
use flagship_lab.Prelude.Text.{write_nat, digit, str_leb}

mutual
  pub data Json : Type 0 where
    null : Json
    bool : Bool → Json
    int : ℤ → Json
    real : String → Json
    decimal : String → Json
    text : String → Json
    arr : Items → Json
    obj : Fields → Json

  pub data Items : Type 0 where
    nil : Items
    cons : Json → Items → Items

  pub data Fields : Type 0 where
    end : Fields
    field : String → Json → Fields → Fields

-- `sort_keys=True`: the keys of a `dict` are distinct, and are put in order.
pub insert_field : String → Json → Fields → Fields
insert_field k v end = field k v end
insert_field k v (field j w fs) =
    if str_leb k j then field k v (field j w fs) else field j w (insert_field k v fs)

-- The value that is printed: keys sorted at every depth, `default=str` applied.
unfoldable mutual
  unfolding insert_field

  pub canon : Json → Json
  canon null = null
  canon (bool b) = bool b
  canon (int n) = int n
  canon (real r) = real r
  canon (decimal d) = text d
  canon (text s) = text s
  canon (arr xs) = arr (canon_items xs)
  canon (obj fs) = obj (canon_fields fs)

  pub canon_items : Items → Items
  canon_items nil = nil
  canon_items (cons v xs) = cons (canon v) (canon_items xs)

  pub canon_fields : Fields → Fields
  canon_fields end = end
  canon_fields (field k v fs) = insert_field k (canon v) (canon_fields fs)

-- `\u00XX` for a control character; the digits are hexadecimal, in lower case.
hex_digit : ℕ → Char
unfolding digit
hex_digit n =
    if ltb n 10
    then digit n
    else (if eqb n 10
        then "a"
        else (if eqb n 11
            then "b"
            else (if eqb n 12
                then "c"
                else (if eqb n 13 then "d" else (if eqb n 14 then "e" else "f")))))

-- One character of a text: the escapes of `ensure_ascii=False`.
pub escape_char : Char → String → String
unfolding hex_digit
escape_char c rest =
    let n = code c in
    if eqb n b'"'
    then "\\" ∷ "\"" ∷ rest
    else (if eqb n b'\\'
        then "\\" ∷ "\\" ∷ rest
        else (if eqb n 10
            then "\\" ∷ "n" ∷ rest
            else (if eqb n 13
                then "\\" ∷ "r" ∷ rest
                else (if eqb n 9
                    then "\\" ∷ "t" ∷ rest
                    else (if eqb n 12
                        then "\\" ∷ "f" ∷ rest
                        else (if eqb n 8
                            then "\\" ∷ "b" ∷ rest
                            else (if ltb n 32
                                then "\\"
                                  ∷ "u"
                                  ∷ "0"
                                  ∷ "0"
                                  ∷ hex_digit (n / 16)
                                  ∷ hex_digit (n % 16)
                                  ∷ rest
                                else c ∷ rest)))))))

-- The writers put their text in front of `rest`.
unfoldable pub write_escaped : String → String → String
unfolding escape_char
write_escaped [] rest = rest
write_escaped (c ∷ s) rest = escape_char c (write_escaped s rest)

unfoldable pub write_text : String → String → String
unfolding write_escaped
write_text s rest = "\"" ∷ write_escaped s ("\"" ∷ rest)

unfoldable pub write_raw : String → String → String
write_raw [] rest = rest
write_raw (c ∷ s) rest = c ∷ write_raw s rest

unfoldable pub write_int : ℤ → String → String
unfolding write_nat
write_int (pos n) rest = write_nat n rest
write_int (negsuc n) rest = "-" ∷ write_nat (suc n) rest

unfoldable mutual
  unfolding write_text write_raw write_int

  pub write : Json → String → String
  write null rest = "n" ∷ "u" ∷ "l" ∷ "l" ∷ rest
  write (bool true) rest = "t" ∷ "r" ∷ "u" ∷ "e" ∷ rest
  write (bool false) rest = "f" ∷ "a" ∷ "l" ∷ "s" ∷ "e" ∷ rest
  write (int n) rest = write_int n rest
  write (real r) rest = write_raw r rest
  write (decimal d) rest = write_text d rest
  write (text s) rest = write_text s rest
  write (arr nil) rest = "[" ∷ "]" ∷ rest
  write (arr (cons v xs)) rest = "[" ∷ write v (write_items xs ("]" ∷ rest))
  write (obj end) rest = "{" ∷ "}" ∷ rest
  write (obj (field k v fs)) rest =
      "{" ∷ write_text k (":" ∷ write v (write_fields fs ("}" ∷ rest)))

  pub write_items : Items → String → String
  write_items nil rest = rest
  write_items (cons v xs) rest = "," ∷ write v (write_items xs rest)

  pub write_fields : Fields → String → String
  write_fields end rest = rest
  write_fields (field k v fs) rest = "," ∷ write_text k (":" ∷ write v (write_fields fs rest))

unfoldable pub canonical_json : Json → String
unfolding canon write
canonical_json v = write (canon v) ""

abbrev sample : Json
sample = obj (
    field "b" (arr (cons (int (pos 120)) (cons (decimal "1.50") nil)))
      (field "a" (text "x\"\n\u{1}") end))

sample_lem : canonical_json sample ≡ "{\"a\":\"x\\\"\\n\\u0001\",\"b\":[120,\"1.50\"]}"
unfolding canonical_json str_leb
sample_lem = refl
