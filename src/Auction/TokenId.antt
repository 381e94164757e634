-- ===== src/Auction/TokenId.antt =====
-- sponsoredTransactionsAuction/frontend/src/components: the token id that MintTokens.tsx and
-- AddItemToAuction.tsx make of a decimal number, and the hexadecimal text of bytes of Bid.tsx.
pub mod RoundTrip
mod Tests
use concordium_dapp_examples.Common.{ℕ, Bool, true, false, ◌++◌, List, [], ◌∷◌, Text, codes}
use concordium_dapp_examples.Js.{to_string}
use concordium_dapp_examples.TokenId.{pad_start}

-- What `Number(text)` gives: NaN, a natural number, or another number with its text in base 16.
pub data Number : Type 0 where
  nan : Number
  natural : ℕ → Number
  other : Text → Number

unfoldable pub is_nan : Number → Bool
is_nan nan = true
is_nan (natural n) = false
is_nan (other t) = false

-- `x.toString(16)`
unfoldable pub to_hex : Number → Text
to_hex nan = codes "NaN"
to_hex (natural n) = to_string 16 n
to_hex (other t) = t

-- `text.slice(-2)`
unfoldable pub last_two : Text → Text
last_two [] = []
last_two (c ∷ []) = c ∷ []
last_two (c ∷ d ∷ []) = c ∷ d ∷ []
last_two (c ∷ d ∷ e ∷ s) = last_two (d ∷ e ∷ s)

-- `0${x.toString(16)}`.slice(-2)
unfoldable pub token_id : Number → Text
unfolding to_hex last_two
token_id x = last_two (b'0' ∷ to_hex x)

-- `[...bytes].map((b) => b.toString(16).padStart(2, '0')).join('')`
unfoldable pub hex_string : List ℕ → Text
hex_string [] = []
hex_string (b ∷ bytes) = pad_start 2 b'0' (to_string 16 b) ++ hex_string bytes
