-- ===== src/Mint/BatchAdd/Tests.antt =====
-- Tokens added by url, with and without their metadata.
use concordium_dapp_examples.Common.{◌≡◌, ◌↔◌, [], ◌∷◌, codes, some, All}
use concordium_dapp_examples.Common.Dict.{Dict}
use concordium_dapp_examples.TokenId.{Cis2ContractInfo}
use concordium_dapp_examples.Mint.Types.{File, TokenInfo}
use concordium_dapp_examples.Mint.BatchAdd.{Token, State, on_done}
use concordium_dapp_examples.Mint.BatchAdd.Done.{IsFinished, on_done_iff}

abbrev info : TokenInfo
info = record {
  metadata_url = record { url = codes "ipfs://cat"; hash = [] };
  quantity = codes "1";
}

abbrev cat : Token
cat = record { token_id = codes "01"; token_info = some info }

abbrev added : State
added = record { error = []; tokens = cat ∷ [] }

abbrev collection : Cis2ContractInfo
collection = record { contract_name = codes "cis2_multi"; token_id_byte_size = 4 }

on_done_iff_example :
    ((ret : Dict TokenInfo) × ((on_done added).1 ≡ some ret)) ↔ All IsFinished added.tokens
on_done_iff_example = on_done_iff added

abbrev file : File
file = record { name = codes "cat.jpg" }
