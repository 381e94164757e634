-- ===== src/Mint/BatchAdd/DefaultIds.antt =====
-- The token ids that the cards propose.
use concordium_dapp_examples.Common.{
  ℕ, ◌+◌, ◌<◌, ◌≡◌, ◌≢◌, refl, List, [], ◌∷◌, Text, arith, length, map,
}
use concordium_dapp_examples.TokenId.{Cis2ContractInfo, to_token_id}
use concordium_dapp_examples.TokenId.RoundTrip.{to_token_id_injective}
use concordium_dapp_examples.Mint.Types.{File}
use concordium_dapp_examples.Mint.BatchAdd.{State, initial_state, on_add, on_remove}
use concordium_dapp_examples.Mint.PrepareOrAdd.{starting_token_id}

abbrev pub ids : State → List Text
ids s = map (λ t. t.token_id) s.tokens

-- The card of an uploaded file proposes another id than any card added by url, however many files
-- and cards there are.
pub default_ids_disjoint :
    (files : List File) (index added : ℕ) (info : Cis2ContractInfo)
    → index < length files
    → to_token_id (index + 1) info ≢ to_token_id (added + 1 + starting_token_id files) info
unfolding starting_token_id
default_ids_disjoint files index added info h same =
    absurd (omega (arith, to_token_id_injective (index + 1) (added + 1 + length files) info same))

-- When two cards are added, the first of them is removed and a third is added, the third proposes
-- the id of the second.
pub default_ids_repeat :
    (start : ℕ) (info : Cis2ContractInfo)
    → let s =
        on_add start info (on_remove 0 (on_add start info (on_add start info initial_state))) in
      ids s ≡ to_token_id (2 + start) info ∷ to_token_id (2 + start) info ∷ []
unfolding on_add on_remove
default_ids_repeat start info = refl
