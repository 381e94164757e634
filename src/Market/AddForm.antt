-- ===== src/Market/AddForm.antt =====
-- components/MarketplaceAdd.tsx: listing some of a token for sale.
pub mod Validation
mod Tests
use concordium_dapp_examples.Common.{
  ℕ, Bool, true, false, ◌||◌, [], ◌++◌, Text, codes, Option, none, some, is_empty, if◌then◌else◌,
}
use concordium_dapp_examples.Common.Int.{ℤ, pos, ◌*ℤ◌, ltb_ℤ, leb_ℤ}
use concordium_dapp_examples.Js.{bigint, parse_int, bigint_to_string}
use concordium_dapp_examples.Client.{ContractAddress}
use concordium_dapp_examples.Market.MarketClient.{AddParams, to_param_contract_address}

pub record State : Type 0 where
  pub adding : Bool
  pub error : Text

-- The fields of the form; `none` is a field that the form data lacks.
pub record Form : Type 0 where
  pub price : Option Text
  pub royalty : Option Text
  pub quantity : Option Text

pub record Props : Type 0 where
  pub nft_contract_address : ContractAddress
  pub token_id : Text
  pub max_quantity : ℤ

-- What a check of one field finds; `throws` where `BigInt` throws.
pub data Check : Type 0 where
  throws invalid valid : Check

abbrev pub or_text : Text → Option Text → Text
or_text d none = d
or_text d (some s) = s

abbrev pub when_invalid : Bool → Check
when_invalid true = invalid
when_invalid false = valid

-- `BigInt(price) <= 0`
abbrev pub price_test : Option ℤ → Check
price_test none = throws
price_test (some p) = when_invalid (leb_ℤ p (pos 0))

-- `!price || BigInt(price) <= 0`
unfoldable pub check_price : Text → Check
check_price price = if is_empty price then invalid else price_test (bigint price)

-- `parseInt(royalty) < 0`, which is false of NaN.
abbrev pub is_negative : Option ℤ → Bool
is_negative none = false
is_negative (some n) = ltb_ℤ n (pos 0)

-- `!royalty || parseInt(royalty) < 0`
unfoldable pub check_royalty : Text → Check
check_royalty royalty = when_invalid (is_empty royalty || is_negative (parse_int royalty))

-- `BigInt(quantity) <= 0 || BigInt(quantity) > props.maxQuantity`
abbrev pub quantity_test : ℤ → Option ℤ → Check
quantity_test max_quantity none = throws
quantity_test max_quantity (some q) = when_invalid (leb_ℤ q (pos 0) || ltb_ℤ max_quantity q)

-- `!quantity || BigInt(quantity) <= 0 || BigInt(quantity) > props.maxQuantity`
unfoldable pub check_quantity : ℤ → Text → Check
check_quantity max_quantity quantity =
    if is_empty quantity then invalid else quantity_test max_quantity (bigint quantity)

-- `parseInt(royalty) * 100`; `none` is NaN.
abbrev pub basis_points : Option ℤ → Option ℤ
basis_points none = none
basis_points (some n) = some (n *ℤ pos 100)

pub data Submitted : Type 0 where
  thrown : Submitted
  refused : State → Submitted
  started : State → AddParams → Submitted

abbrev pub add_json : Props → Text → Text → Text → AddParams
add_json props price royalty quantity = record {
  cis_contract_address = to_param_contract_address props.nft_contract_address;
  token_id = props.token_id;
  price = price;
  royalty = basis_points (parse_int royalty);
  quantity = quantity;
}

quantity_message : ℤ → Text → Text
quantity_message max_quantity quantity =
    codes "Invalid Quantity: "
    ++ (quantity ++ (codes ", Should be less than Or equal to " ++ bigint_to_string max_quantity))

-- The rest of `submit` behind each check.
after_quantity : Props → Text → Text → Text → State → Check → Submitted
unfolding quantity_message
after_quantity props price royalty quantity s throws = thrown
after_quantity props price royalty quantity s invalid =
    refused (record s { error = quantity_message props.max_quantity quantity })
after_quantity props price royalty quantity s valid =
    started (record s { adding = true; error = [] }) (add_json props price royalty quantity)

after_royalty : Props → Text → Text → Text → State → Check → Submitted
unfolding after_quantity check_quantity
after_royalty props price royalty quantity s throws = thrown
after_royalty props price royalty quantity s invalid =
    refused (record s { error = codes "Invalid Royalty" })
after_royalty props price royalty quantity s valid =
    after_quantity props price royalty quantity s (check_quantity props.max_quantity quantity)

after_price : Props → Text → Text → Text → State → Check → Submitted
unfolding after_royalty check_royalty
after_price props price royalty quantity s throws = thrown
after_price props price royalty quantity s invalid =
    refused (record s { error = codes "Invalid Price" })
after_price props price royalty quantity s valid =
    after_royalty props price royalty quantity s (check_royalty royalty)

unfoldable pub submit : Props → Form → State → Submitted
unfolding after_price check_price
submit props form s =
    let price = or_text [] form.price in
    after_price props price (or_text (codes "0") form.royalty) (or_text (codes "0") form.quantity) s
      (check_price price)

-- The callbacks of the request; `captured` is `state` at the submit. The second part says whether
-- `onDone` is called.
unfoldable pub on_added : (captured : State) → State × Bool
on_added captured = (record captured { error = []; adding = false }, true)

unfoldable pub on_failed : (captured : State) → Text → State × Bool
on_failed captured message = (record captured { error = message; adding = false }, false)
