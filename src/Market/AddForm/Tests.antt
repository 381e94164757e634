-- ===== src/Market/AddForm/Tests.antt =====
-- Listing two of three tokens, and a royalty that is no number.
use concordium_dapp_examples.Common.{◌≡◌, refl, true, false, [], codes, some, arith}
use concordium_dapp_examples.Common.Int.{pos}
use concordium_dapp_examples.Js.{bigint, parse_int}
use concordium_dapp_examples.Market.AddForm.{State, Form, Props, started, add_json, submit}
use concordium_dapp_examples.Market.AddForm.Validation.{
  Carries, IsListing, submit-started, submit_of_IsListing,
}

abbrev cat : Props
cat = record {
  nft_contract_address = record { index = pos 12; subindex = pos 0 };
  token_id = codes "01";
  max_quantity = pos 3;
}

abbrev filled_in : Form
filled_in = record {
  price = some (codes "5");
  royalty = some (codes "ten");
  quantity = some (codes "2");
}

abbrev idle : State
idle = record { adding = false; error = [] }

filled_in-IsListing : IsListing cat (codes "5") (codes "ten") (codes "2")
unfolding bigint parse_int
filled_in-IsListing = record {
  price_of = pos 5;
  price_read = refl;
  price_positive = omega arith;
  royalty_given = refl;
  royalty_not_negative = refl;
  quantity_of = pos 2;
  quantity_read = refl;
  quantity_positive = omega arith;
  quantity_held = omega arith;
}

submit_of_IsListing_example :
    submit cat filled_in idle
    ≡ started
        (record idle { adding = true; error = [] })
        (add_json cat (codes "5") (codes "ten") (codes "2"))
submit_of_IsListing_example = submit_of_IsListing cat filled_in idle filled_in-IsListing

submit-started_example :
    Carries cat
      (codes "5")
      (codes "ten")
      (codes "2")
      (add_json cat (codes "5") (codes "ten") (codes "2"))
    × IsListing cat (codes "5") (codes "ten") (codes "2")
submit-started_example =
    submit-started cat filled_in idle (record idle { adding = true; error = [] })
      (add_json cat (codes "5") (codes "ten") (codes "2")) submit_of_IsListing_example
