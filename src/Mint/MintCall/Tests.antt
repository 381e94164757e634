-- ===== src/Mint/MintCall/Tests.antt =====
-- Minting one token.
use mathlib.Core.List.{Memᴰ}
use concordium_dapp_examples.Common.{
  ℕ, ◌≡◌, refl, [], ◌∷◌, Text, codes, some, Settled, fulfilled, length, eq_text, none,
}
use concordium_dapp_examples.Common.Dict.{Dict, lookup}
use concordium_dapp_examples.Common.Int.{pos, ◌*ℤ◌}
use concordium_dapp_examples.Client.{
  ContractAddress, ContractInfo, Provider, Request, Summary, TransactionStatus, finalized,
  account_transaction, update, wait, ensure_valid_outcome,
}
use concordium_dapp_examples.Client.Sending.{IsFinalized}
use concordium_dapp_examples.Client.Outcomes.{IsExecuted}
use concordium_dapp_examples.Mint.Types.{TokenInfo}
use concordium_dapp_examples.Mint.MintCall.{MintToken, MintParams, mint}
use concordium_dapp_examples.Mint.MintCall.Batch.{IsEntry, mint_sound}

abbrev cat : TokenInfo
cat = record { metadata_url = record { url = codes "ipfs://cat"; hash = [] }; quantity = codes "1" }

abbrev one_token : Dict TokenInfo
one_token = (codes "01", cat) ∷ []

abbrev done_summary : Summary
done_summary = account_transaction update

abbrev at_once : Text → ℕ → Settled TransactionStatus
at_once hash k = fulfilled (finalized (some done_summary))

abbrev wallet : Provider MintParams
wallet = record { ccd_error = λ n. none; send = λ r. fulfilled (codes "hash"); status = at_once }

abbrev collection : ContractAddress
collection = record { index = pos 12; subindex = pos 0 }

abbrev multi : ContractInfo
multi = record { schema_buffer = []; contract_name = codes "cis2_multi"; module_ref = none }

mint_sound_example :
    (request : Request MintParams) × (params : MintParams) × (entry : MintToken) × ((mint wallet
        (codes "me")
        one_token
        collection
        multi
        (pos 9999)
        1).sent
      ≡ request ∷ [])
    × (request.params ≡ some params)
    × (params.owner ≡ codes "me")
    × (length params.tokens ≡ length one_token)
    × Memᴰ entry params.tokens
    × IsEntry (codes "01") cat entry
    × IsFinalized wallet request done_summary
    × IsExecuted done_summary
unfolding mint wait ensure_valid_outcome lookup eq_text ◌*ℤ◌
mint_sound_example =
    mint_sound wallet (codes "me") one_token collection multi (pos 9999) 1 done_summary (codes "01")
      cat refl refl
