-- ===== src/Auction/Forms.antt =====
-- sponsoredTransactionsAuction/frontend/src/components: MintTokens.tsx, AddItemToAuction.tsx and
-- ViewItem.tsx. The form library hands the handlers the fields that it has validated.
pub mod Items
mod Tests
use concordium_dapp_examples.Common.{
  ℕ, zero, suc, Bool, true, false, List, [], ◌∷◌, Option, none, some, Text, codes, Settled,
  fulfilled, rejected, ◌>>=◌, if◌then◌else◌,
}
use concordium_dapp_examples.DryRun.{Simulation, Request, Outcome, Contract}
use concordium_dapp_examples.Trace.Forms.{Addresses}
use concordium_dapp_examples.Auction.TokenId.{Number, is_nan, token_id}
use concordium_dapp_examples.Auction.Contracts.{AddItemParameter, MintParameter, add_item, mint}

-- The hash and the error at the top of the page, and the message of a form.
pub record Transaction : Type 0 where
  pub tx_hash : Option Text
  pub transaction_error : Option Text
  pub show_message : Bool

abbrev pub cleared : Transaction
cleared = record { tx_hash = none; transaction_error = none; show_message = false }

-- `then`, `catch`, `finally`
unfoldable pub on_settled : Settled Text → Transaction → Transaction
on_settled (fulfilled hash) t = record t { tx_hash = some hash; show_message = true }
on_settled (rejected message) t = record t { transaction_error = some message; show_message = true }

-- A submitted form: it ends, throws when the address of the account is refused, or calls.
pub data Submitted (P : Type 0) : Type 0 where
  ended : Submitted P
  threw : Text → Submitted P
  called : Outcome P → Submitted P

with_account :
    {Address P : Type 0} → Addresses Address → Option Text → (Address → Outcome P) → Submitted P
with_account addresses none call = ended
with_account addresses (some []) call = ended
with_account addresses (some (c ∷ account)) call = elim (addresses.from_base58 (c ∷ account)) [
  | fulfilled a ↦ called (call a)
  | rejected message ↦ threw message
]

module _ {V Address : Type 0} (addresses : Addresses Address) (number : Text → Number)
    (c : Contract V) where
  -- MintTokens.tsx: the transaction of the page, and the call; `to_address` is a field of the form.
  unfoldable pub submit_mint :
      (MintParameter Address → Settled (Option (Simulation V)))
      → (Request (MintParameter Address) → Settled Text)
      → Text
      → Bool
      → Option Text
      → Text
      → Text
      → Transaction × Submitted (MintParameter Address)
  unfolding with_account
  submit_mint dry_run wallet metadata_url false account to_address id = (cleared, ended)
  submit_mint dry_run wallet metadata_url true account to_address id = (
    cleared,
    with_account addresses account (λ a.
        mint c dry_run wallet (addresses.address a)
          (record { owner = a; url = metadata_url; token_id = token_id (number id) })),
  )

  -- AddItemToAuction.tsx, for the times of the auction.
  unfoldable pub submit_item :
      (AddItemParameter → Settled (Option (Simulation V)))
      → (Request AddItemParameter → Settled Text)
      → ℕ
      → ℕ
      → Option Text
      → Text
      → Text
      → Transaction × Submitted AddItemParameter
  unfolding with_account
  submit_item dry_run wallet auction_start auction_end account id name = (
    cleared,
    with_account addresses account (λ a. add_item c dry_run wallet (addresses.address a) (record {
      name = name;
      start = auction_start;
      end = auction_end;
      minimum_bid = 0;
      token_id = token_id (number id);
    })),
  )

-- AddItemToAuction.tsx: the index of the new item.
pub record ItemState : Type 0 where
  pub add_item_tx_hash : Option Text
  pub item_index : Option ℕ
  pub item_index_error : Option Text

abbrev pub initial_state : ItemState
initial_state = record { add_item_tx_hash = none; item_index = none; item_index_error = none }

unfoldable pub on_submit_item : ItemState → ItemState
on_submit_item s = record s { add_item_tx_hash = none }

unfoldable pub on_added : Settled Text → ItemState → ItemState
on_added (fulfilled hash) s = record s { add_item_tx_hash = some hash }
on_added (rejected message) s = s

-- `report.summary`: the events of an update, each with its logs, or anything else.
pub data Summary (E : Type 0) : Type 0 where
  updated : List (List E) → Summary E
  other : Summary E

-- The message of reading a field of `undefined`, and the index of a decoded event.
pub record Decoder (E : Type 0) : Type 0 where
  pub type_error : Text
  pub item_index : Option E → Settled ℕ

module _ {E : Type 0} (d : Decoder E) where
  logged_index : List (List E) → Settled ℕ
  logged_index [] = rejected d.type_error
  logged_index ([] ∷ events) = d.item_index none
  logged_index ((log ∷ logs) ∷ events) = d.item_index (some log)

  show_index : Settled ℕ → ItemState → ItemState
  show_index (fulfilled index) s = record s { item_index = some index }
  show_index (rejected message) s = record s { item_index = none; item_index_error = some message }

  unfoldable pub on_report : Settled (Summary E) → ItemState → ItemState
  unfolding logged_index show_index
  on_report (rejected message) s = show_index (rejected message) s
  on_report (fulfilled (updated events)) s = show_index (logged_index events) s
  on_report (fulfilled other) s = record s {
    item_index_error = some (codes "Tansaction failed and event decoding failed.");
  }

-- `{itemIndex && …}`: the alert is not rendered for the index 0.
unfoldable pub index_alert : ItemState → Option ℕ
index_alert s = elim s.item_index [
  | none ↦ none
  | some index ↦ elim index [ zero ↦ none | suc n ↦ some (suc n) ]
]

-- ViewItem.tsx; `stringify` prints the state of an item.
pub record ViewState : Type 0 where
  pub item_state : Option Text
  pub item_state_error : Option Text

view_answer : {R : Type 0} → (R → Text) → Settled R → ViewState → ViewState
view_answer stringify (fulfilled value) s = record s { item_state = some (stringify value) }
view_answer stringify (rejected message) s = record s { item_state_error = some message }

unfoldable pub submit_view :
    {R : Type 0} → (Number → Settled R) → (R → Text) → Bool → Number → ViewState → ViewState
unfolding view_answer
submit_view view_item_state stringify has_client index s =
    let empty : ViewState = record { item_state = none; item_state_error = none } in
    if is_nan index
    then record empty { item_state_error = some (codes "ItemIndex is NaN.") }
    else if has_client
    then view_answer stringify (view_item_state index) empty
    else empty
