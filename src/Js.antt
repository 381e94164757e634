-- ===== src/Js.antt =====
-- The functions of the JavaScript standard library that read and print numbers: `BigInt(text)`,
-- `parseInt(text)` and `n.toString(radix)`. Numbers are exact (`parseInt` of a text above 2^53 is
-- rounded by the engine, which no theorem uses).
pub mod Hex
pub mod Trim
use concordium_dapp_examples.Common.{
  ℕ, zero, suc, ◌+◌, ◌*◌, ◌-◌, ◌/◌, ◌%◌, Bool, true, false, ◌&&◌, ◌||◌, List, [], ◌∷◌, ◌++◌, Option,
  none, some, Text, codes, is_empty, ltb, leb, ◌==◌, if◌then◌else◌,
}
use mathlib.Core.List.{reverse}
use concordium_dapp_examples.Common.Int.{ℤ, pos, negsuc}

-- WhiteSpace and LineTerminator of the language's grammar.
unfoldable pub is_space : ℕ → Bool
is_space c =
    leb 9 c && leb c 13
    || c == 32
    || c == 160
    || c == 0x1680
    || leb 0x2000 c && leb c 0x200a
    || c == 0x2028
    || c == 0x2029
    || c == 0x202f
    || c == 0x205f
    || c == 0x3000
    || c == 0xfeff

unfoldable pub trim_start : Text → Text
unfolding is_space
trim_start [] = []
trim_start (c ∷ s) = let rest = trim_start s in if is_space c then rest else c ∷ s

unfoldable pub trim : Text → Text
unfolding trim_start
trim s = reverse (trim_start (reverse (trim_start s)))

-- The value of a digit below 16.
unfoldable pub digit_value : ℕ → Option ℕ
digit_value c =
    if leb b'0' c && leb c b'9'
    then some (c - b'0')
    else if leb b'a' c && leb c b'f'
    then some (c - b'a' + 10)
    else if leb b'A' c && leb c b'F'
    then some (c - b'A' + 10)
    else none

abbrev pub below : ℕ → Option ℕ → Option ℕ
below radix none = none
below radix (some d) = if ltb d radix then some d else none

unfoldable pub digit_in : ℕ → ℕ → Option ℕ
unfolding digit_value
digit_in radix c = below radix (digit_value c)

-- A text of digits only.
unfoldable pub all_digits : ℕ → ℕ → Text → Option ℕ
unfolding digit_in
all_digits radix acc [] = some acc
all_digits radix acc (c ∷ s) = elim (digit_in radix c) [
  | none ↦ none
  | some d ↦ all_digits radix (acc * radix + d) s
]

-- The longest prefix of digits.
unfoldable pub digit_prefix : ℕ → ℕ → Text → ℕ
unfolding digit_in
digit_prefix radix acc [] = acc
digit_prefix radix acc (c ∷ s) = elim (digit_in radix c) [
  | none ↦ acc
  | some d ↦ digit_prefix radix (acc * radix + d) s
]

abbrev negate : ℕ → ℤ
negate zero = pos 0
negate (suc n) = negsuc n

abbrev signed : Bool → ℕ → ℤ
signed true n = negate n
signed false n = pos n

abbrev number : Bool → Option ℕ → Option ℤ
number minus none = none
number minus (some n) = some (signed minus n)

-- At least one digit.
some_digits : ℕ → Bool → Text → Option ℤ
unfolding all_digits
some_digits radix minus [] = none
some_digits radix minus (c ∷ s) = number minus (all_digits radix 0 (c ∷ s))

-- `0x`, `0o` and `0b`, which take no sign.
radix_of : ℕ → Option ℕ
radix_of c =
    if c == b'x' || c == b'X'
    then some 16
    else if c == b'o' || c == b'O'
    then some 8
    else if c == b'b' || c == b'B'
    then some 2
    else none

bigint_literal : Text → Option ℤ
unfolding some_digits radix_of
bigint_literal [] = some (pos 0)
bigint_literal (c ∷ []) = some_digits 10 false (c ∷ [])
bigint_literal (c ∷ x ∷ s) =
    if c == b'-'
    then some_digits 10 true (x ∷ s)
    else if c == b'+'
    then some_digits 10 false (x ∷ s)
    else if c == b'0'
    then elim (radix_of x) [
      | none ↦ some_digits 10 false (c ∷ x ∷ s)
      | some radix ↦ some_digits radix false s
    ]
    else some_digits 10 false (c ∷ x ∷ s)

-- `BigInt(text)`; `none` is the SyntaxError that it throws.
unfoldable pub bigint : Text → Option ℤ
unfolding bigint_literal trim
bigint s = bigint_literal (trim s)

-- The prefix of digits, if there is one.
prefix_number : ℕ → Bool → Text → Option ℤ
unfolding digit_prefix
prefix_number radix minus [] = none
prefix_number radix minus (c ∷ s) = elim (digit_in radix c) [
  | none ↦ none
  | some d ↦ some (signed minus (digit_prefix radix 0 (c ∷ s)))
]

unsigned_int : Bool → Text → Option ℤ
unfolding prefix_number
unsigned_int minus [] = none
unsigned_int minus (c ∷ []) = prefix_number 10 minus (c ∷ [])
unsigned_int minus (c ∷ x ∷ s) =
    if c == b'0' && (x == b'x' || x == b'X')
    then prefix_number 16 minus s
    else prefix_number 10 minus (c ∷ x ∷ s)

int_literal : Text → Option ℤ
unfolding unsigned_int
int_literal [] = none
int_literal (c ∷ s) =
    if c == b'-'
    then unsigned_int true s
    else if c == b'+'
    then unsigned_int false s
    else unsigned_int false (c ∷ s)

-- `parseInt(text)`; `none` is NaN. (-0 is 0.)
unfoldable pub parse_int : Text → Option ℤ
unfolding int_literal trim_start
parse_int s = int_literal (trim_start s)

abbrev pub digit_char : ℕ → ℕ
digit_char d = if ltb d 10 then b'0' + d else b'a' + (d - 10)

-- The digits of `n` in front of `out`, and nothing for 0; the fuel `n` is enough.
unfoldable pub print_digits : ℕ → ℕ → ℕ → Text → Text
print_digits radix zero n out = out
print_digits radix (suc f) n out =
    let rest = print_digits radix f (n / radix) (digit_char (n % radix) ∷ out) in
    if n == 0 then out else rest

-- `n.toString(radix)`
unfoldable pub to_string : ℕ → ℕ → Text
unfolding print_digits
to_string radix n = if n == 0 then b'0' ∷ [] else print_digits radix n n []

-- `b.toString()` of a bigint.
unfoldable pub bigint_to_string : ℤ → Text
unfolding to_string
bigint_to_string (pos n) = to_string 10 n
bigint_to_string (negsuc n) = b'-' ∷ to_string 10 (suc n)
