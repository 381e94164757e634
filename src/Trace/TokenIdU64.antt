-- ===== src/Trace/TokenIdU64.antt =====
-- trackAndTrace/frontend/src/utils.ts, `ToTokenIdU64` and `FromTokenIdU64`: an item's number as 8
-- bytes in hexadecimal digits, the least significant byte first.
pub mod RoundTrip
pub mod Numbers
mod Tests
use concordium_dapp_examples.Common.{
  ℕ, suc, ◌-◌, ◌^◌, ◌++◌, Bool, ◌||◌, List, [], ◌∷◌, Option, none, some, Text, codes, Settled,
  fulfilled, rejected, ltb, ◌==◌, if◌then◌else◌,
}
use mathlib.Core.List.{reverse}
use concordium_dapp_examples.Common.Int.{ℤ, pos, negsuc}
use concordium_dapp_examples.Js.{bigint, to_string}
use concordium_dapp_examples.TokenId.{pad_start}

-- `n.toString(16)`
unfoldable pub to_hex : ℤ → Text
to_hex (pos n) = to_string 16 n
to_hex (negsuc n) = b'-' ∷ to_string 16 (suc n)

-- The characters that `.` does not match.
unfoldable pub is_line_terminator : ℕ → Bool
is_line_terminator c = c == 10 || c == 13 || c == 0x2028 || c == 0x2029

-- `s.match(/.{2}/g)`; `[]` is the `null` of a text without a match.
unfoldable pub pairs : Text → List Text
unfolding is_line_terminator
pairs [] = []
pairs (c ∷ []) = []
pairs (c ∷ d ∷ s) =
    let later = pairs (d ∷ s) in
    let rest = pairs s in
    if is_line_terminator c
    then later
    else if is_line_terminator d
    then rest
    else (c ∷ d ∷ []) ∷ rest

-- `l.join('')`
unfoldable pub join : List Text → Text
join [] = []
join (t ∷ l) = t ++ join l

-- `number > 2n ** 64n - 1n`
unfoldable pub is_too_large : ℤ → Bool
is_too_large (pos n) = ltb (2 ^ 64 - 1) n
is_too_large (negsuc n) = Bool.false

unfoldable pub to_token_id_u64 : ℤ → Settled Text
unfolding is_too_large to_hex pad_start to_string pairs join
to_token_id_u64 number =
    if is_too_large number
    then rejected (codes "Number too large to be converted into `TokenIdU64`.")
    else fulfilled (join (reverse (pairs (pad_start 16 b'0' (to_hex number)))))

-- The digits behind `0x`: `undefined` where nothing matches.
unfoldable pub big_endian : List Text → Text
unfolding join
big_endian [] = codes "undefined"
big_endian (t ∷ l) = join (reverse (t ∷ l))

-- `none` is the SyntaxError that `BigInt` throws.
unfoldable pub from_token_id_u64 : Text → Option ℤ
unfolding big_endian pairs bigint
from_token_id_u64 token_id_u64 =
    bigint (codes "0x" ++ (big_endian (pairs token_id_u64) ++ codes " "))
