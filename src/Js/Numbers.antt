-- ===== src/Js/Numbers.antt =====
-- Numbers as text. A `number` here is an integer or `NaN`; `none` is `NaN`.
pub mod RoundTrip
use mathlib.Core.Option
use fizzbee_mbt_examples.Prelude.{
  ℕ, suc, zero, ◌+◌, ◌-◌, ◌*◌, ◌/◌, ◌%◌, List, [], ◌∷◌, ◌++◌, Option, none, some, Bool, true, false,
  ◌&&◌, ◌||◌, Text, codes, ltb, leb, ◌==◌, if◌then◌else◌, drop,
}
use fizzbee_mbt_examples.Prelude.Int.{ℤ, pos, negsuc, sub_ℕ}
use fizzbee_mbt_examples.Js.Strings.{trim_start, starts_with}

abbrev pub Number : Type 0
Number = Option ℤ

-- The decimal digits of a number, the last one split off in each round. The number itself is
-- enough fuel, since a tenth of it is less.
pub digits : ℕ → ℕ → Text
digits zero n = []
digits (suc fuel) n =
    let more = digits fuel (n / 10) ++ (b'0' + n % 10) ∷ [] in
    if ltb n 10 then (b'0' + n) ∷ [] else more

unfoldable pub decimal : ℕ → Text
unfolding digits
decimal n = digits (suc n) n

-- `n.toString()`
unfoldable pub to_string : Number → Text
unfolding decimal
to_string none = codes "NaN"
to_string (some (pos n)) = decimal n
to_string (some (negsuc n)) = b'-' ∷ decimal (suc n)

digit_value : ℕ → Option ℕ
digit_value c =
    if leb b'0' c && leb c b'9'
    then some (c - b'0')
    else if leb b'a' c && leb c b'f'
    then some (c - b'a' + 10)
    else if leb b'A' c && leb c b'F'
    then some (c - b'A' + 10)
    else none

in_radix : ℕ → Option ℕ → Option ℕ
in_radix r none = none
in_radix r (some d) = if ltb d r then some d else none

-- The value of the digits at the start of a text, behind the value `n`.
pub scan : ℕ → Text → ℕ → ℕ
scan r [] n = n
scan r (c ∷ s) n = elim (in_radix r (digit_value c)) [ none ↦ n | some d ↦ scan r s (n * r + d) ]

-- At least one digit is needed.
unsigned : ℕ → Text → Option ℕ
unsigned r [] = none
unsigned r (c ∷ s) = elim (in_radix r (digit_value c)) [ none ↦ none | some d ↦ some (scan r s d) ]

magnitude : Text → Option ℕ
magnitude s =
    if starts_with s (codes "0x") || starts_with s (codes "0X")
    then unsigned 16 (drop 2 s)
    else unsigned 10 s

signed : Text → Number
signed [] = none
signed (c ∷ s) =
    if c == b'-'
    then Option.map (λ n. sub_ℕ 0 n) (magnitude s)
    else if c == b'+'
    then Option.map pos (magnitude s)
    else Option.map pos (magnitude (c ∷ s))

-- `parseInt(s)`
unfoldable pub parse_int : Text → Number
unfolding signed magnitude unsigned scan in_radix digit_value
parse_int s = signed (trim_start s)
