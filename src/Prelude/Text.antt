-- ===== src/Prelude/Text.antt =====
-- Python's text operations that the program uses on whole texts.
use mathlib.Core.List.{List, [], ◌∷◌}
use Prim.Native.Nat.{ℕ, zero, suc, ◌/◌, ◌%◌}
use Prim.Native.Char.{Char, code}
use Prim.Native.String.{String}
use mathlib.Core.Bool.{Bool, true, false, ◌&&◌, ◌||◌}
use flagship_lab.Prelude.Tests.{ltb, leb, eqb, if◌then◌else◌}

-- `len(s)`: the number of characters.
abbrev pub count : String → ℕ
count String.[] = 0
count (String.◌∷◌ c s) = suc (count s)

-- `str.isspace` of one character.
pub is_space : ℕ → Bool
is_space c =
    leb 9 c && leb c 13
    || leb 28 c && leb c 32
    || eqb c 133
    || eqb c 160
    || eqb c 5760
    || leb 8192 c && leb c 8202
    || leb 8232 c && leb c 8233
    || eqb c 8239
    || eqb c 8287
    || eqb c 12288

-- `not s.strip()`: no character, or white space alone.
unfoldable pub is_blank : String → Bool
unfolding is_space
is_blank String.[] = true
is_blank (String.◌∷◌ c s) = is_space (code c) && is_blank s

unfoldable pub digit : ℕ → Char
digit zero = "0"
digit (suc zero) = "1"
digit (suc (suc zero)) = "2"
digit (suc (suc (suc zero))) = "3"
digit (suc (suc (suc (suc zero)))) = "4"
digit (suc (suc (suc (suc (suc zero))))) = "5"
digit (suc (suc (suc (suc (suc (suc zero)))))) = "6"
digit (suc (suc (suc (suc (suc (suc (suc zero))))))) = "7"
digit (suc (suc (suc (suc (suc (suc (suc (suc zero)))))))) = "8"
digit (suc (suc (suc (suc (suc (suc (suc (suc (suc n))))))))) = "9"

-- The decimal digits of `n` in front of `rest`; `n + 1` rounds of fuel are enough.
pub write_digits : ℕ → ℕ → String → String
unfolding digit
write_digits zero n rest = rest
write_digits (suc fuel) n rest =
    let this = String.◌∷◌ (digit (n % 10)) rest in
    let more = write_digits fuel (n / 10) this in if ltb n 10 then this else more

-- `str(n)` of a natural number, in front of `rest`.
unfoldable pub write_nat : ℕ → String → String
unfolding write_digits
write_nat n = write_digits (suc n) n

unfoldable pub str_nat : ℕ → String
unfolding write_nat
str_nat n = write_nat n ""

-- The order of texts by code points, as Python sorts them.
unfoldable pub str_leb : String → String → Bool
str_leb String.[] t = true
str_leb (String.◌∷◌ c s) String.[] = false
str_leb (String.◌∷◌ c s) (String.◌∷◌ d t) =
    if ltb (code c) (code d) then true else (if eqb (code c) (code d) then str_leb s t else false)

-- `s.replace(c, "")` for one character `c`.
unfoldable pub drop_char : ℕ → String → String
drop_char n String.[] = String.[]
drop_char n (String.◌∷◌ c s) =
    let rest = drop_char n s in if eqb (code c) n then rest else String.◌∷◌ c rest

-- `a + b`; the native `◌++◌` is stuck at variables, and this one computes by clauses.
infixr 65 ◌<>◌
abbrev pub ◌<>◌ : String → String → String
String.[] <> t = t
(String.◌∷◌ c s) <> t = String.◌∷◌ c (s <> t)

-- `s[:n]`
unfoldable pub clip : ℕ → String → String
clip zero s = String.[]
clip (suc n) String.[] = String.[]
clip (suc n) (String.◌∷◌ c s) = String.◌∷◌ c (clip n s)

-- The last `places` decimal digits of `n`, with leading zeros, in front of `rest`.
unfoldable pub write_fraction : ℕ → ℕ → String → String
unfolding digit
write_fraction zero n rest = rest
write_fraction (suc places) n rest =
    write_fraction places (n / 10) (String.◌∷◌ (digit (n % 10)) rest)

-- `s.startswith(p)`
unfoldable pub starts_with : String → String → Bool
starts_with String.[] s = true
starts_with (String.◌∷◌ c p) String.[] = false
starts_with (String.◌∷◌ c p) (String.◌∷◌ d s) = eqb (code c) (code d) && starts_with p s

-- `sep.join(parts)`
unfoldable pub join_with : String → List String → String
join_with sep [] = ""
join_with sep (x ∷ []) = x
join_with sep (x ∷ y ∷ xs) = x <> sep <> join_with sep (y ∷ xs)
