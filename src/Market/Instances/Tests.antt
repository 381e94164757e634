-- ===== src/Market/Instances/Tests.antt =====
-- A marketplace with a commission of 5 %, and a lookup of instance 12.
use concordium_dapp_examples.Common.{
  ◌≡◌, refl, ℕ, false, [], ◌∷◌, Text, codes, none, some, Settled, fulfilled,
}
use concordium_dapp_examples.Common.Int.{pos, ◌*ℤ◌}
use concordium_dapp_examples.Client.{
  ContractAddress, ContractInfo, Provider, Request, TransactionStatus, finalized, init_payload,
  account_transaction, init_contract, wait, ensure_valid_outcome, parse_contract_address,
}
use concordium_dapp_examples.Client.Sending.{IsFinalized}
use concordium_dapp_examples.Market.Instances.{
  InitState, InitParams, submit_market, create_market, on_market_created, FindState,
}
use concordium_dapp_examples.Market.Instances.Lookup.{Charges, create_market_sound}

abbrev market : ContractAddress
market = record { index = pos 12; subindex = pos 0 }

abbrev at_once : Text → ℕ → Settled TransactionStatus
at_once hash k = fulfilled (finalized (some (account_transaction (init_contract market))))

abbrev wallet : Provider InitParams
wallet = record { ccd_error = λ n. none; send = λ r. fulfilled (codes "hash"); status = at_once }

abbrev market_info : ContractInfo
market_info = record {
  schema_buffer = [];
  contract_name = codes "Market-NFT";
  module_ref = some (codes "c0ffee");
}

abbrev idle : InitState
idle = record { error = []; processing = false }

create_market_sound_example :
    (module_ref : Text) × (params : InitParams) × (request : Request InitParams) × (some
        (codes "c0ffee")
      ≡ some module_ref)
    × ((create_market wallet market_info
          (codes "me")
          (submit_market (some (codes "5")) idle).1
          (pos 9999)
          1).sent
        ≡ request ∷ [])
    × (request.account ≡ codes "me")
    × (request.payload ≡ init_payload (pos 0) module_ref (codes "Market-NFT") (pos 9999))
    × (request.params ≡ some params)
    × Charges (some (codes "5")) params
    × IsFinalized wallet request (account_transaction (init_contract market))
unfolding create_market on_market_created wait ensure_valid_outcome parse_contract_address ◌*ℤ◌
create_market_sound_example =
    create_market_sound wallet market_info (codes "me") (some (codes "5")) idle (pos 9999) 1
      (fulfilled market) market refl refl

abbrev not_checking : FindState
not_checking = record { find_error = []; checking = false }

abbrev known : ContractAddress → Settled (Unit {0})
known a = fulfilled tt
