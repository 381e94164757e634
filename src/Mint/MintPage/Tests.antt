-- ===== src/Mint/MintPage/Tests.antt =====
-- The wizard from a collection to the mint step, without Pinata.
use concordium_dapp_examples.Common.{◌≡◌, refl, [], ◌∷◌, codes, some}
use concordium_dapp_examples.Common.Dict.{Dict}
use concordium_dapp_examples.Common.Int.{pos}
use concordium_dapp_examples.Client.{ContractAddress}
use concordium_dapp_examples.Mint.Types.{TokenInfo}
use concordium_dapp_examples.Mint.MintPage.{
  State, initial_state, on_get_collection_address, on_pinata_skipped, on_metadata_prepared,
  collection, skipped, prepared, Reach, here, next, step_content,
}
use concordium_dapp_examples.Mint.MintPage.Wizard.{Reach-batch_mint}

abbrev cats : ContractAddress
cats = record { index = pos 12; subindex = pos 0 }

abbrev cat : Dict TokenInfo
cat =
    (
      codes "01",
      record {
        metadata_url = record { url = codes "ipfs://cat"; hash = [] };
        quantity = codes "1";
      },
    )
    ∷ []

abbrev at_mint : State
at_mint =
    on_metadata_prepared cat (on_pinata_skipped (on_get_collection_address cats initial_state))

at_mint-Reach : Reach at_mint
unfolding on_metadata_prepared on_pinata_skipped on_get_collection_address initial_state
at_mint-Reach =
    next (next (next here (collection _ cats refl)) (skipped _ refl)) (prepared _ cat refl)

Reach-batch_mint_example :
    ((address : ContractAddress) × (some cats ≡ some address))
    × ((map : Dict TokenInfo) × (some cat ≡ some map))
unfolding on_metadata_prepared on_pinata_skipped on_get_collection_address step_content
Reach-batch_mint_example = Reach-batch_mint (some cats) (some cat) at_mint-Reach refl
