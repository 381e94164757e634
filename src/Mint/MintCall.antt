-- ===== src/Mint/MintCall.antt =====
-- common-ui/src/models/Cis2Client.ts (`mint`): the request that mints a batch of tokens.
pub mod Batch
mod Tests
use concordium_dapp_examples.Common.{
  ℕ, List, [], ◌∷◌, Text, codes, Option, none, some, is_empty, if◌then◌else◌,
}
use concordium_dapp_examples.Common.Dict.{Dict}
use concordium_dapp_examples.Common.Int.{ℤ, pos}
use concordium_dapp_examples.Client.{
  ContractAddress, ContractInfo, Provider, Run, Summary, update_contract,
}
use concordium_dapp_examples.Mint.Types.{TokenInfo}

-- One entry of `tokens`, with its token id.
pub record MintToken : Type 0 where
  pub token_id : Text
  pub url : Text
  pub hash : Option Text
  pub token_amount : Text

pub record MintParams : Type 0 where
  pub owner : Text
  pub tokens : List MintToken

-- `hash ? { Some: [hash] } : { None: [] }`
abbrev pub optional_hash : Text → Option Text
optional_hash hash = if is_empty hash then none else some hash

abbrev pub mint_token : Text → TokenInfo → MintToken
mint_token id info = record {
  token_id = id;
  url = info.metadata_url.url;
  hash = optional_hash info.metadata_url.hash;
  token_amount = info.quantity;
}

unfoldable pub mint_tokens : Dict TokenInfo → List MintToken
mint_tokens [] = []
mint_tokens ((id, info) ∷ d) = mint_token id info ∷ mint_tokens d

unfoldable pub mint_params : Text → Dict TokenInfo → MintParams
unfolding mint_tokens
mint_params account tokens = record { owner = account; tokens = mint_tokens tokens }

unfoldable pub mint :
    Provider MintParams
    → Text
    → Dict TokenInfo
    → ContractAddress
    → ContractInfo
    → ℤ
    → ℕ
    → Run MintParams Summary
unfolding mint_params update_contract
mint provider account tokens collection info energy fuel =
    update_contract provider info (mint_params account tokens) account collection (codes "mint")
      energy (pos 0) fuel
