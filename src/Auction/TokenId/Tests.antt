-- ===== src/Auction/TokenId/Tests.antt =====
-- Token ids of small and of large numbers.
use concordium_dapp_examples.Common.{◌≡◌, refl, [], ◌∷◌, some, codes, length}
use concordium_dapp_examples.Js.{all_digits, to_string}
use concordium_dapp_examples.TokenId.{pad_start}
use concordium_dapp_examples.Auction.TokenId.{natural, nan, token_id, hex_string}
use concordium_dapp_examples.Auction.TokenId.RoundTrip.{read_bytes, all_digits-token_id}

one_digit : token_id (natural 7) ≡ codes "07"
unfolding token_id to_string
one_digit = refl

wraps : token_id (natural 300) ≡ codes "2c"
unfolding token_id to_string
wraps = refl

no_number : token_id nan ≡ codes "aN"
unfolding token_id to_string
no_number = refl

all_digits-token_id_example :
    (length (token_id (natural 300)) ≡ 2) × (all_digits 16 0 (token_id (natural 300)) ≡ some 44)
all_digits-token_id_example = all_digits-token_id 300

little_endian : read_bytes (hex_string (1 ∷ 0 ∷ [])) ≡ some (1 ∷ 0 ∷ [])
unfolding read_bytes hex_string pad_start to_string all_digits
little_endian = refl
