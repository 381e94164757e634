-- ===== src/Market/TransferDialog/Tests.antt =====
-- Buying two of three listed tokens at 5 CCD each.
use concordium_dapp_examples.Common.{◌≡◌, refl, ◌↔◌, [], ◌++◌, codes, none, some, rejected, arith}
use concordium_dapp_examples.Common.Int.{ℤ, pos, ◌*ℤ◌}
use concordium_dapp_examples.Js.{bigint}
use concordium_dapp_examples.Client.{
  ContractAddress, ContractInfo, Provider, Request, update_payload,
}
use concordium_dapp_examples.Client.Amounts.{Asked}
use concordium_dapp_examples.Market.MarketClient.{TokenListItem, MarketParams}
use concordium_dapp_examples.Market.TransferDialog.{
  State, started, initial_state, or_zero, submit, purchase, on_change,
}
use concordium_dapp_examples.Market.TransferDialog.Purchase.{
  IsOffered, submit-started_iff, purchase-total_amount,
}

abbrev cats : ContractAddress
cats = record { index = pos 12; subindex = pos 0 }

abbrev listed : TokenListItem
listed = record {
  token_id = codes "01";
  contract = cats;
  price = pos 5;
  owner = codes "owner";
  royalty = pos 0;
  primary_owner = codes "owner";
  quantity = pos 3;
}

abbrev wallet : Provider MarketParams
wallet = record {
  ccd_error = λ n. none;
  send = λ r. rejected (codes "Declined");
  status = λ h k. rejected (codes "Unknown transaction");
}

abbrev market_info : ContractInfo
market_info = record { schema_buffer = []; contract_name = codes "Market-NFT"; module_ref = none }

submit-started_iff_example :
    ((t : State) × (submit listed (some (codes "2")) (initial_state listed) ≡ started t (pos 2)))
    ↔ ((bigint (or_zero (some (codes "2"))) ≡ some (pos 2)) × IsOffered listed (pos 2))
submit-started_iff_example =
    submit-started_iff listed (some (codes "2")) (initial_state listed) (pos 2)

two_read : bigint (codes "2") ≡ some (pos 2)
unfolding bigint
two_read = refl

two-IsOffered : IsOffered listed (pos 2)
two-IsOffered = (omega arith, omega arith)

purchase-total_amount_example :
    (shown : State) × (total : ℤ) × (request : Request MarketParams) × (on_change listed
        (codes "2")
        (initial_state listed)
      ≡ some shown)
    × (shown.total_amount ≡ some total)
    × (request.payload
        ≡ update_payload
            (pos 6000)
            cats
            (total *ℤ pos 1000000)
            (codes "Market-NFT" ++ (codes "." ++ codes "transfer")))
    × Asked wallet
        (total *ℤ pos 1000000)
        request
        (purchase wallet (codes "me") cats listed (pos 2) market_info (pos 6000) 1)
purchase-total_amount_example =
    purchase-total_amount wallet (codes "me") cats listed (codes "2") (pos 2) (pos 6000) market_info
      1 (initial_state listed) two_read two-IsOffered
