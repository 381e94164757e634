-- ===== src/Trace/TokenIdU64/Tests.antt =====
-- Token ids of 64 bits at concrete numbers.
use concordium_dapp_examples.Common.{
  ◌≡◌, refl, codes, none, some, Text, fulfilled, rejected, length, arith,
}
use concordium_dapp_examples.Common.Int.{pos, negsuc}
use concordium_dapp_examples.Trace.TokenIdU64.{to_token_id_u64, from_token_id_u64}
use concordium_dapp_examples.Trace.TokenIdU64.Numbers.{
  from_token_id_u64-to_token_id_u64, to_token_id_u64-negative,
}

one : to_token_id_u64 (pos 1) ≡ fulfilled (codes "0100000000000000")
unfolding to_token_id_u64
one = refl

minus_one : to_token_id_u64 (negsuc 0) ≡ fulfilled (codes "-100000000000000")
unfolding to_token_id_u64
minus_one = refl

largest : to_token_id_u64 (pos 18446744073709551615) ≡ fulfilled (codes "ffffffffffffffff")
unfolding to_token_id_u64
largest = refl

too_large :
    to_token_id_u64 (pos 18446744073709551616)
    ≡ rejected (codes "Number too large to be converted into `TokenIdU64`.")
unfolding to_token_id_u64
too_large = refl

empty : from_token_id_u64 (codes "") ≡ none
unfolding from_token_id_u64
empty = refl

from_token_id_u64-to_token_id_u64_example :
    (t : Text) × (to_token_id_u64 (pos 258) ≡ fulfilled t)
    × (length t ≡ 16)
    × (from_token_id_u64 t ≡ some (pos 258))
from_token_id_u64-to_token_id_u64_example = from_token_id_u64-to_token_id_u64 258 (omega arith)

to_token_id_u64-negative_example :
    (t : Text) × (to_token_id_u64 (negsuc 4) ≡ fulfilled t)
    × (length t ≡ 16)
    × (from_token_id_u64 t ≡ none)
to_token_id_u64-negative_example = to_token_id_u64-negative 4 (omega arith)
