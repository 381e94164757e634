-- ===== src/Market/MarketClient.antt =====
-- common-ui/src/models/MarketplaceClient.ts: the calls of the marketplace contract.
use concordium_dapp_examples.Common.{ℕ, Text, codes, Option}
use concordium_dapp_examples.Common.Int.{ℤ, ◌*ℤ◌}
use concordium_dapp_examples.Js.{bigint_to_string, parse_int}
use concordium_dapp_examples.Client.{
  ContractAddress, ContractInfo, Provider, Run, Summary, update_contract,
}

-- `ParamContractAddress`; `none` is NaN.
pub record ParamContractAddress : Type 0 where
  pub index : Option ℤ
  pub subindex : Option ℤ

unfoldable pub to_param_contract_address : ContractAddress → ParamContractAddress
to_param_contract_address a = record {
  index = parse_int (bigint_to_string a.index);
  subindex = parse_int (bigint_to_string a.subindex);
}

-- `TokenListItem`
pub record TokenListItem : Type 0 where
  pub token_id : Text
  pub contract : ContractAddress
  pub price : ℤ
  pub owner : Text
  pub royalty : ℤ
  pub primary_owner : Text
  pub quantity : ℤ

-- `AddParams` and `TransferParams`
pub record AddParams : Type 0 where
  pub cis_contract_address : ParamContractAddress
  pub token_id : Text
  pub price : Text
  pub royalty : Option ℤ
  pub quantity : Text

pub record TransferParams : Type 0 where
  pub cis_contract_address : ParamContractAddress
  pub token_id : Text
  pub to : Text
  pub owner : Text
  pub quantity : Text

pub data MarketParams : Type 0 where
  add_params : AddParams → MarketParams
  transfer_params : TransferParams → MarketParams

unfoldable pub add :
    Provider MarketParams
    → Text
    → ContractAddress
    → AddParams
    → ContractInfo
    → ℤ
    → ℕ
    → Run MarketParams Summary
unfolding update_contract
add provider account market params info energy fuel =
    update_contract provider info (add_params params) account market (codes "add") energy (ℤ.pos 0)
      fuel

abbrev pub transfer_json : Text → ContractAddress → Text → Text → ℤ → TransferParams
transfer_json account nft_contract token_id owner quantity = record {
  cis_contract_address = to_param_contract_address nft_contract;
  token_id = token_id;
  to = account;
  owner = owner;
  quantity = bigint_to_string quantity;
}

unfoldable pub transfer :
    Provider MarketParams
    → Text
    → ContractAddress
    → ContractAddress
    → Text
    → ℤ
    → Text
    → ℤ
    → ContractInfo
    → ℤ
    → ℕ
    → Run MarketParams Summary
unfolding update_contract
transfer provider account market nft_contract token_id price_ccd owner quantity info energy fuel =
    update_contract provider info
      (transfer_params (transfer_json account nft_contract token_id owner quantity)) account market
      (codes "transfer") energy (price_ccd *ℤ quantity) fuel
