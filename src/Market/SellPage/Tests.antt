-- ===== src/Market/SellPage/Tests.antt =====
-- One collection, of which the marketplace is made an operator, and one token of it.
use mathlib.Core.List.{Memᴰ}
use concordium_dapp_examples.Common.{◌≡◌, refl, false, [], ◌∷◌, Text, codes, some}
use concordium_dapp_examples.Common.Int.{ℤ, pos}
use concordium_dapp_examples.Client.{ContractAddress}
use concordium_dapp_examples.Market.SellPage.{
  State, initial_state, on_get_collection_address, on_check_operator, on_update_operator,
  on_token_balance, step_content, World, start, Reach, here, next, found, created, no_operator,
  updated, balance,
}
use concordium_dapp_examples.Market.SellPage.Wizard.{for_address, Reach-marketplace_add}

abbrev cats : ContractAddress
cats = record { index = pos 12; subindex = pos 0 }

abbrev found_state : State
found_state = on_get_collection_address initial_state cats (for_address cats)

abbrev last_state : State
last_state =
    on_token_balance (codes "01") (pos 3) (on_update_operator (on_check_operator false found_state))

abbrev last : World
last = record {
  state = last_state;
  waiting = [];
  approved = for_address cats ∷ [];
  balances = (for_address cats, codes "01", pos 3) ∷ [];
}

last-Reach : Reach last
unfolding initial_state step_content on_get_collection_address on_check_operator on_update_operator
last-Reach =
    let asked = next here (found start cats refl) in
    let known = next asked (created _ [] [] _ refl) in
    let unapproved = next known (no_operator _ (for_address cats) refl) in
    let approved = next unapproved (updated _ (for_address cats) refl) in
    next approved (balance _ (for_address cats) (codes "01") (pos 3) refl)

Reach-marketplace_add_example :
    (a : ContractAddress) × (i : Text) × (t : ℤ) × (some cats ≡ some a)
    × (some (codes "01") ≡ some i)
    × (some (pos 3) ≡ some t)
    × Memᴰ (for_address a) last.approved
    × Memᴰ (for_address a, i, t) last.balances
unfolding step_content on_token_balance on_update_operator on_check_operator
    on_get_collection_address
Reach-marketplace_add_example =
    Reach-marketplace_add (some cats) (some (codes "01")) (some (pos 3)) last-Reach refl
