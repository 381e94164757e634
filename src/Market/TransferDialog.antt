-- ===== src/Market/TransferDialog.antt =====
-- components/MarketplaceTransferDialog.tsx: buying some of a listed token.
pub mod Purchase
mod Tests
use concordium_dapp_examples.Common.{
  Bool, true, false, not, ◌||◌, ◌&&◌, List, [], Text, codes, Option, none, some, if◌then◌else◌, ℕ,
}
use concordium_dapp_examples.Common.Int.{ℤ, pos, ◌*ℤ◌, ltb_ℤ, leb_ℤ, is_zero}
use concordium_dapp_examples.Js.{bigint}
use concordium_dapp_examples.Client.{ContractAddress, ContractInfo, Provider, Run, Summary}
use concordium_dapp_examples.Market.MarketClient.{TokenListItem, MarketParams, transfer}

pub record State : Type 0 where
  pub is_bought : Option Bool
  pub is_being_bought : Option Bool
  pub error : Option Text
  pub total_amount : Option ℤ

pub data Severity : Type 0 where
  success failure : Severity

pub record AlertState : Type 0 where
  pub open_now : Bool
  pub message : Text
  pub severity : Option Severity

unfoldable pub initial_state : TokenListItem → State
initial_state item = record {
  is_bought = none;
  is_being_bought = none;
  error = none;
  total_amount = some (item.quantity *ℤ item.price);
}

-- What `submit` does: the text is no number and `BigInt` throws, the quantity is refused, or a
-- purchase of some tokens is started.
pub data Submitted : Type 0 where
  thrown : Submitted
  refused : State → Submitted
  started : State → (quantity : ℤ) → Submitted

abbrev pub or_zero : Option Text → Text
or_zero none = codes "0"
or_zero (some s) = s

-- `!quantity || quantity > item.quantity || quantity <= 0`
unfoldable pub is_invalid : TokenListItem → ℤ → Bool
is_invalid item quantity =
    is_zero quantity || ltb_ℤ item.quantity quantity || leb_ℤ quantity (pos 0)

unfoldable pub check_quantity : TokenListItem → State → Option ℤ → Submitted
unfolding is_invalid
check_quantity item s none = thrown
check_quantity item s (some quantity) =
    if is_invalid item quantity
    then refused (record s { error = some (codes "Invalid Quantity") })
    else started (record s { is_bought = some false; is_being_bought = some true; error = some [] })
        quantity

unfoldable pub submit : TokenListItem → Option Text → State → Submitted
unfolding check_quantity
submit item field s = check_quantity item s (bigint (or_zero field))

-- The request that a started purchase makes.
unfoldable pub purchase :
    Provider MarketParams
    → Text
    → ContractAddress
    → TokenListItem
    → ℤ
    → ContractInfo
    → ℤ
    → ℕ
    → Run MarketParams Summary
unfolding transfer
purchase provider account market item quantity info energy fuel =
    transfer provider account market item.contract item.token_id item.price item.owner quantity info
      energy fuel

-- The callbacks of the request; `captured` is `state` at the submit.
unfoldable pub on_bought : (captured : State) → State × AlertState
on_bought captured = (
  record captured { is_bought = some true; is_being_bought = some false; error = some [] },
  record { open_now = true; message = codes "Purchase succesful"; severity = some success },
)

unfoldable pub on_failed : (captured : State) → Text → State × AlertState
on_failed captured message = (
  record captured { is_bought = some false; is_being_bought = some false; error = some message },
  record { open_now = true; message = codes "Purchasing failed"; severity = some failure },
)

-- `value && value > 0 && value <= props.token.quantity`
unfoldable pub is_valid : TokenListItem → ℤ → Bool
is_valid item value = not (is_zero value) && ltb_ℤ (pos 0) value && leb_ℤ value item.quantity

-- `handleQuantityChanged`
unfoldable pub quantity_changed : TokenListItem → ℤ → State → State
unfolding is_valid
quantity_changed item value s =
    if is_valid item value
    then record s { total_amount = some (value *ℤ item.price) }
    else record s { total_amount = some (pos 0) }

-- `handleQuantityChanged(BigInt(e.target.value))`; `none` where `BigInt` throws.
unfoldable pub on_change : TokenListItem → Text → State → Option State
unfolding quantity_changed
on_change item text s = elim (bigint text) [
  | none ↦ none
  | some value ↦ some (quantity_changed item value s)
]

abbrev pub is_true : Option Bool → Bool
is_true none = false
is_true (some b) = b

-- `disabled` of the button.
unfoldable pub buy_disabled : State → Bool
buy_disabled s = is_true s.is_bought || is_true s.is_being_bought
