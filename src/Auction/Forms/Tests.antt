-- ===== src/Auction/Forms/Tests.antt =====
-- Minting and adding an item with concrete fields.
use concordium_dapp_examples.Common.{
  ℕ, ◌≡◌, refl, true, [], Option, none, some, Text, codes, Settled, fulfilled,
}
use concordium_dapp_examples.Js.{to_string}
use concordium_dapp_examples.DryRun.{Simulation, success, Request, Contract}
use concordium_dapp_examples.DryRun.Sending.{Judged}
use concordium_dapp_examples.Trace.Forms.{Addresses}
use concordium_dapp_examples.Auction.TokenId.{Number, natural, token_id}
use concordium_dapp_examples.Auction.Contracts.{MintParameter, mint}
use concordium_dapp_examples.Auction.Forms.{initial_state, index_alert, submit_mint}
use concordium_dapp_examples.Auction.Forms.Items.{AccountIs, NamesToken, submit_mint-Judged}

abbrev addresses : Addresses Text
addresses = record { from_base58 = fulfilled; address = λ a. a }

abbrev number : Text → Number
number t = natural 7

abbrev token_contract : Contract ℕ
token_contract = record {
  name = codes "cis2_multi";
  index = 6372;
  show_index = codes "6372";
  show_error = λ r. [];
  show_response = λ r. [];
}

abbrev simulate : {P : Type 0} → P → Settled (Option (Simulation ℕ))
simulate p = fulfilled (some (success (some 0) 3000))

abbrev wallet : {P : Type 0} → Request P → Settled Text
wallet r = fulfilled (codes "hash")

abbrev mint_parameter : MintParameter Text
mint_parameter = record { owner = codes "me"; url = codes "https://meta"; token_id = codes "07" }

submit_mint-Judged_example :
    (p : MintParameter Text) × AccountIs addresses (some (codes "me")) p.owner
    × NamesToken 7 p.token_id
    × Judged
        (λ _. simulate)
        wallet
        token_contract
        (codes "mint")
        p.owner
        p
        (simulate p)
        (mint token_contract simulate wallet (codes "me") mint_parameter)
unfolding submit_mint token_id to_string
submit_mint-Judged_example =
    submit_mint-Judged addresses number token_contract simulate wallet (codes "https://meta") true
      (some (codes "me")) (codes "somebody else") (codes "7") 7
      (mint token_contract simulate wallet (codes "me") mint_parameter) refl refl

-- The first item of the auction has the index 0, for which no alert is shown.
hidden_index : index_alert (record initial_state { item_index = some 0 }) ≡ none
unfolding index_alert
hidden_index = refl
