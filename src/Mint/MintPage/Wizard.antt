-- ===== src/Mint/MintPage/Wizard.antt =====
-- What holds of every state that the wizard can reach.
use concordium_dapp_examples.Common.{
  ◌≡◌, ◌≢◌, refl, Option, none, some, arith, ◌∙◌, some_of_ne_none,
}
use concordium_dapp_examples.Common.Dict.{Dict}
use concordium_dapp_examples.Client.{ContractAddress}
use concordium_dapp_examples.Mint.Types.{TokenInfo}
use concordium_dapp_examples.Mint.MintPage.{
  Steps, get_or_init_cis2, connect_pinata, upload_files, prepare_metadata, mint, State,
  initial_state, on_get_collection_address, on_pinata_connected, on_pinata_skipped,
  on_files_uploaded, on_metadata_prepared, go_back, step_content, step_content_of, batch_mint, Step,
  collection, connected, skipped, uploaded, prepared, back, Reach, here, next,
}

-- Behind the first step the collection is known, and in the last step the tokens are.
record IsComplete (s : State) : Type 0 where
  has_contract : s.active_step ≢ get_or_init_cis2 → s.nft_contract ≢ none
  has_tokens : s.active_step ≡ mint → s.token_metadata_map ≢ none

Step-IsComplete : {s t : State} → Step s t → IsComplete s → IsComplete t
unfolding on_get_collection_address on_pinata_connected on_pinata_skipped on_files_uploaded
    on_metadata_prepared go_back
Step-IsComplete (collection s a e) c = ground arith
Step-IsComplete (connected s jwt e) c = ground arith
Step-IsComplete (skipped s e) c = ground arith
Step-IsComplete (uploaded s files e) c = ground arith
Step-IsComplete (prepared s tokens e) c = ground arith
Step-IsComplete (back s) c = ground arith

Reach-IsComplete : {s : State} → Reach s → IsComplete s
Reach-IsComplete here = unfold initial_state in ground arith
Reach-IsComplete (next r step) = Step-IsComplete step (Reach-IsComplete r)

content-batch_mint :
    (step : Steps) (s : State) (a : Option ContractAddress) (tokens : Option (Dict TokenInfo))
    → step_content_of step s ≡ batch_mint a tokens
    → (step ≡ mint) × (s.nft_contract ≡ a) × (s.token_metadata_map ≡ tokens)
unfolding step_content_of
content-batch_mint get_or_init_cis2 s a tokens e = absurd (cc)
content-batch_mint connect_pinata s a tokens e = absurd (cc)
content-batch_mint upload_files s a tokens e = absurd (cc)
content-batch_mint prepare_metadata s a tokens e = absurd (cc)
content-batch_mint mint s a tokens e = (refl, cc, cc)

-- Whatever the order of the callbacks and of the back button, the mint step is only rendered with
-- a collection and with tokens.
pub Reach-batch_mint :
    {s : State} (a : Option ContractAddress) (tokens : Option (Dict TokenInfo))
    → Reach s
    → step_content s ≡ batch_mint a tokens
    → ((address : ContractAddress) × (a ≡ some address))
      × ((map : Dict TokenInfo) × (tokens ≡ some map))
unfolding step_content
Reach-batch_mint {s} a tokens r e =
    let c = Reach-IsComplete r in
    let (at_mint, same_contract, same_tokens) = content-batch_mint s.active_step s a tokens e in
    (
      some_of_ne_none a (λ n. c.has_contract (λ p. cc) (same_contract ∙ n)),
      some_of_ne_none tokens (λ n. c.has_tokens at_mint (same_tokens ∙ n)),
    )
