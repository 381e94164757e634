-- ===== src/TokenId/Tests.antt =====
-- Token ids and file names at concrete inputs.
use concordium_dapp_examples.Common.{◌≡◌, refl, some, codes}
use concordium_dapp_examples.Js.{all_digits}
use concordium_dapp_examples.TokenId.{Cis2ContractInfo, to_token_id}
use concordium_dapp_examples.TokenId.RoundTrip.{all_digits-to_token_id}

abbrev pub multi : Cis2ContractInfo
multi = record { contract_name = codes "cis2_multi"; token_id_byte_size = 1 }

tenth : to_token_id 10 multi ≡ codes "0a"
unfolding to_token_id
tenth = refl

all_digits-to_token_id_example : all_digits 16 0 (to_token_id 300 multi) ≡ some 300
all_digits-to_token_id_example = all_digits-to_token_id 300 multi
