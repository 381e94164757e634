-- ===== src/Mint/PrepareOrAdd/Tests.antt =====
-- Both sides with one token each.
use concordium_dapp_examples.Common.{◌≡◌, refl, [], ◌∷◌, Text, codes, none, some}
use concordium_dapp_examples.Common.Dict.{Dict, lookup, or_else}
use concordium_dapp_examples.Common.Int.{pos}
use concordium_dapp_examples.Client.{ContractAddress}
use concordium_dapp_examples.Mint.Types.{File, TokenInfo}
use concordium_dapp_examples.Mint.PrepareOrAdd.{initial_state, on_prep_done, on_add_done}
use concordium_dapp_examples.Mint.PrepareOrAdd.Joining.{both_sides}

abbrev cat : File
cat = record { name = codes "cat.jpg" }

abbrev with_url : Text → TokenInfo
with_url u = record { metadata_url = record { url = u; hash = [] }; quantity = codes "1" }

abbrev prepared_tokens : Dict TokenInfo
prepared_tokens = (codes "01", with_url (codes "ipfs://cat")) ∷ []

abbrev added_tokens : Dict TokenInfo
added_tokens = (codes "02", with_url (codes "https://dog")) ∷ []

both_sides_example :
    ((on_prep_done prepared_tokens (initial_state (cat ∷ []))).1 ≡ none)
    × ((on_add_done added_tokens (initial_state (cat ∷ []))).1 ≡ none)
    × ((joined : Dict TokenInfo) × ((on_add_done added_tokens
            (on_prep_done prepared_tokens (initial_state (cat ∷ []))).0).1
          ≡ some joined)
        × (lookup (codes "01") joined
            ≡ or_else (lookup (codes "01") added_tokens) (lookup (codes "01") prepared_tokens)))
    × ((joined : Dict TokenInfo) × ((on_prep_done prepared_tokens
            (on_add_done added_tokens (initial_state (cat ∷ []))).0).1
          ≡ some joined)
        × (lookup (codes "01") joined
            ≡ or_else (lookup (codes "01") prepared_tokens) (lookup (codes "01") added_tokens)))
unfolding lookup
both_sides_example =
    both_sides cat [] prepared_tokens added_tokens (codes "01") (refl, tt) (refl, tt)

abbrev cats : ContractAddress
cats = record { index = pos 12; subindex = pos 0 }
