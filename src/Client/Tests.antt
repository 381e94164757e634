-- ===== src/Client/Tests.antt =====
-- Polling and sending at concrete inputs: a wallet that accepts every request, and a node that
-- reports a transaction as received, as committed, and then as finalized.
use concordium_dapp_examples.Common.{
  ℕ, zero, suc, ◌<◌, ◌≡◌, refl, inl, inr, [], ◌∷◌, ◌++◌, Text, codes, none, some, Settled,
  fulfilled, arith, ◌||◌, if◌then◌else◌,
}
use concordium_dapp_examples.Common.Int.{pos, negsuc, ◌*ℤ◌, ltb_ℤ}
use concordium_dapp_examples.Client.{
  ContractAddress, Summary, TransactionStatus, received, committed, finalized, account_transaction,
  update, init_contract, Provider, Request, ContractInfo, update_payload, wait, update_contract,
  init_contract_client, ensure_valid_outcome, parse_contract_address,
}
use concordium_dapp_examples.Client.Polling.{IsPending, wait_first}
use concordium_dapp_examples.Client.Outcomes.{IsExecuted, updated}
use concordium_dapp_examples.Client.Sending.{
  IsInit, IsFinalized, update_contract_sound, update_contract_completes, init_contract_client_sound,
}

abbrev reports : Summary → ℕ → Settled TransactionStatus
reports s zero = fulfilled received
reports s (suc zero) = fulfilled committed
reports s (suc (suc n)) = fulfilled (finalized (some s))

reports-IsPending : (s : Summary) (i : ℕ) → i < 2 → IsPending (reports s i)
reports-IsPending s zero h = inl refl
reports-IsPending s (suc zero) h = inr refl
reports-IsPending s (suc (suc i)) h = absurd (omega arith)

abbrev updated_summary : Summary
updated_summary = account_transaction update

abbrev market : ContractAddress
market = record { index = pos 7; subindex = pos 0 }

abbrev created_summary : Summary
created_summary = account_transaction (init_contract market)

abbrev accepting : Summary → Provider Text
accepting s = record {
  ccd_error = λ n.
      if ltb_ℤ n (pos 0) || ltb_ℤ (pos 18446744073709551615) n
      then some (codes "out of range")
      else none;
  send = λ r. fulfilled (codes "hash");
  status = λ h k. reports s k;
}

abbrev market_info : ContractInfo
market_info = record {
  schema_buffer = [];
  contract_name = codes "Market-NFT";
  module_ref = some (codes "c0ffee");
}

wait_first_example : wait (reports updated_summary) 5 0 ≡ some (fulfilled (some updated_summary))
wait_first_example =
    wait_first (reports updated_summary) (fulfilled (some updated_summary)) 2 5 (omega arith)
      (reports-IsPending updated_summary) (inl (some updated_summary, refl, refl))

update_contract_completes_example :
    (update_contract
      (accepting updated_summary)
      market_info
      (codes "params")
      (codes "me")
      market
      (codes "add")
      (pos 6000)
      (pos 0)
      5).result
    ≡ some (fulfilled updated_summary)
unfolding ◌*ℤ◌
update_contract_completes_example =
    update_contract_completes (accepting updated_summary) market_info (codes "params") (codes "me")
      market (codes "add") (pos 6000) (pos 0) 5 2 (codes "hash") updated_summary refl refl
      (reports-IsPending updated_summary) refl updated (omega arith)

update_contract_sound_example :
    (request : Request Text) × ((update_contract
        (accepting updated_summary)
        market_info
        (codes "params")
        (codes "me")
        market
        (codes "add")
        (pos 6000)
        (pos 0)
        5).sent
      ≡ request ∷ [])
    × (request.payload
        ≡ update_payload
            (pos 6000)
            market
            (pos 0 *ℤ pos 1000000)
            (codes "Market-NFT" ++ (codes "." ++ codes "add")))
    × (request.params ≡ some (codes "params"))
    × IsFinalized (accepting updated_summary) request updated_summary
    × IsExecuted updated_summary
unfolding update_contract wait ensure_valid_outcome ◌*ℤ◌
update_contract_sound_example =
    update_contract_sound (accepting updated_summary) market_info (codes "params") (codes "me")
      market (codes "add") (pos 6000) (pos 0) 5 updated_summary refl

init_contract_client_sound_example :
    (module_ref : Text) × (request : Request Text) × (some (codes "c0ffee") ≡ some module_ref)
    × ((init_contract_client
          (accepting created_summary)
          market_info
          (codes "me")
          none
          (pos 6000)
          (pos 0)
          5).sent
        ≡ request ∷ [])
    × IsInit market_info module_ref (codes "me") none (pos 6000) (pos 0) request
    × IsFinalized (accepting created_summary) request created_summary
unfolding init_contract_client wait ensure_valid_outcome parse_contract_address ◌*ℤ◌
init_contract_client_sound_example =
    init_contract_client_sound (accepting created_summary) market_info (codes "me") none (pos 6000)
      (pos 0) 5 market refl

-- What the SDK refuses does not reach the wallet.
refused_amount :
    (update_contract
      (accepting updated_summary)
      market_info
      (codes "params")
      (codes "me")
      market
      (codes "add")
      (pos 6000)
      (negsuc 0)
      5).sent
    ≡ []
unfolding update_contract ◌*ℤ◌
refused_amount = refl
