-- ===== src/Market/BalanceOf/Tests.antt =====
-- A balance of three.
use concordium_dapp_examples.Common.{◌≡◌, refl, false, [], codes, some}
use concordium_dapp_examples.Common.Int.{pos}
use concordium_dapp_examples.Market.BalanceOf.{State, balance, on_answer}

abbrev asked : State
asked = record { checking = false; error = []; token_id = codes "01" }

three : (on_answer asked (balance (pos 3))).1 ≡ some (codes "01", pos 3)
unfolding on_answer
three = refl
