-- ===== src/Trace/TokenIdU64/Numbers.antt =====
-- Which numbers have a token id that reads back.
use concordium_dapp_examples.Common.{
  ℕ, zero, suc, ◌^◌, ◌<◌, ◌≤◌, ◌≡◌, refl, ◌∙◌, ap, ◌∷◌, none, some, Text, length, All, All-append,
  arith, fulfilled, false,
}
use concordium_dapp_examples.Common.Int.{pos, negsuc}
use concordium_dapp_examples.Js.{all_digits, to_string, digit_in}
use concordium_dapp_examples.Js.Trim.{IsVisible, to_string-IsVisible, hex_value}
use concordium_dapp_examples.Js.Hex.{length-to_string, all_digits-to_string}
use concordium_dapp_examples.TokenId.{pad_start, replicate}
use concordium_dapp_examples.TokenId.RoundTrip.{all_digits-zeros, length-pad_start}
use concordium_dapp_examples.Trace.TokenIdU64.{
  to_hex, is_too_large, to_token_id_u64, from_token_id_u64,
}
use concordium_dapp_examples.Trace.TokenIdU64.RoundTrip.{
  swapped, length-swapped, from_token_id_u64-swapped, IsBytes-of_length,
}

zeros-IsVisible : (k : ℕ) → All IsVisible (replicate k b'0')
zeros-IsVisible zero = tt
zeros-IsVisible (suc k) = (omega arith, zeros-IsVisible k)

padded-IsVisible : (s : Text) → All IsVisible s → All IsVisible (pad_start 16 b'0' s)
unfolding pad_start
padded-IsVisible s h = All-append IsVisible (replicate _ b'0') s (zeros-IsVisible _) h

all_digits-pad_start : (s : Text) → all_digits 16 0 (pad_start 16 b'0' s) ≡ all_digits 16 0 s
unfolding pad_start
all_digits-pad_start s = all_digits-zeros _ s

-- The token id made of at most 16 visible characters, and what is read from it.
module _ (s : Text) (h : All IsVisible s) (short : length s ≤ 16) where
  length-swapped-pad_start : length (swapped (pad_start 16 b'0' s)) ≡ 16
  length-swapped-pad_start =
      length-swapped _
        (IsBytes-of_length 8 _ (padded-IsVisible s h) (length-pad_start 16 b'0' s short))
      ∙ length-pad_start 16 b'0' s short

  from_token_id_u64-pad_start :
      from_token_id_u64 (swapped (pad_start 16 b'0' s)) ≡ hex_value (all_digits 16 0 s)
  from_token_id_u64-pad_start =
      from_token_id_u64-swapped _ 7 (padded-IsVisible s h) (length-pad_start 16 b'0' s short)
      ∙ ap hex_value (all_digits-pad_start s)

is_too_large-small : (n : ℕ) → n < 2 ^ 64 → is_too_large (pos n) ≡ false
unfolding is_too_large
is_too_large-small n h = ground arith

-- Every number below 2^64 has a token id, it has 16 characters, and the number is read back from
-- it.
pub from_token_id_u64-to_token_id_u64 :
    (n : ℕ)
    → n < 2 ^ 64
    → (t : Text) × (to_token_id_u64 (pos n) ≡ fulfilled t)
      × (length t ≡ 16)
      × (from_token_id_u64 t ≡ some (pos n))
from_token_id_u64-to_token_id_u64 n h = (
  swapped (pad_start 16 b'0' (to_string 16 n)),
  unfold to_token_id_u64 in unfold to_hex in unfold swapped in rw (is_too_large-small n h) refl,
  length-swapped-pad_start (to_string 16 n) (to_string-IsVisible n) short,
  from_token_id_u64-pad_start (to_string 16 n) (to_string-IsVisible n) short
      ∙ ap hex_value (all_digits-to_string n),
)
  where
    short : length (to_string 16 n) ≤ 16
    short = length-to_string n 16 (omega arith) (omega arith)

minus-all_digits : (s : Text) → all_digits 16 0 (b'-' ∷ s) ≡ none
unfolding all_digits digit_in
minus-all_digits s = refl

-- A negative number above -16^15 is given a token id of 16 characters without an error, and no
-- number is read from it.
pub to_token_id_u64-negative :
    (n : ℕ)
    → suc n < 16 ^ 15
    → (t : Text) × (to_token_id_u64 (negsuc n) ≡ fulfilled t)
      × (length t ≡ 16)
      × (from_token_id_u64 t ≡ none)
to_token_id_u64-negative n h = (
  swapped (pad_start 16 b'0' (b'-' ∷ to_string 16 (suc n))),
  unfold to_token_id_u64 in unfold is_too_large in unfold to_hex in unfold swapped in refl,
  length-swapped-pad_start (b'-' ∷ to_string 16 (suc n)) visible short,
  from_token_id_u64-pad_start (b'-' ∷ to_string 16 (suc n)) visible short
      ∙ ap hex_value (minus-all_digits (to_string 16 (suc n))),
)
  where
    visible : All IsVisible (b'-' ∷ to_string 16 (suc n))
    visible = (omega arith, to_string-IsVisible (suc n))

    short : length (b'-' ∷ to_string 16 (suc n)) ≤ 16
    short = omega (arith, length-to_string (suc n) 15 (omega arith) h)
