-- ===== src/Market/FindInstance/Tests.antt =====
-- Looking up instance 12, and a text that is no whole number.
use concordium_dapp_examples.Common.{◌≡◌, refl, true, [], codes, none, some, fulfilled}
use concordium_dapp_examples.Common.Int.{pos, ◌≤ℤ◌}
use concordium_dapp_examples.Js.{bigint}
use concordium_dapp_examples.Client.{ContractAddress}
use concordium_dapp_examples.Market.FindInstance.{
  Form, initial_state, support, Node, submit, answer, on_answer,
}
use concordium_dapp_examples.Market.FindInstance.Search.{found_sound}

abbrev cats : ContractAddress
cats = record { index = pos 12; subindex = pos 0 }

abbrev cis2_node : Node
cis2_node = record {
  instance_info = λ a. fulfilled tt;
  cis0_supports = λ a. fulfilled (some support);
}

abbrev twelve : Form
twelve = record { index = codes "12"; subindex = codes "0" }

found_sound_example :
    (bigint (codes "12") ≡ some (pos 12))
    × (bigint (codes "0") ≡ some (pos 0))
    × (pos 0 ≤ℤ pos 12)
    × (pos 0 ≤ℤ pos 0)
    × (cis2_node.instance_info cats ≡ fulfilled tt)
    × (cis2_node.cis0_supports cats ≡ fulfilled (some support))
unfolding submit on_answer answer bigint
found_sound_example =
    found_sound cis2_node twelve initial_state (record { error = []; checking = true }) cats refl
      refl

abbrev fraction : Form
fraction = record { index = codes "1.5"; subindex = codes "0" }

fraction_refused : bigint (codes "1.5") ≡ none
unfolding bigint
fraction_refused = refl
