-- ===== src/Trace/CreatedItem.antt =====
-- The new item's number in trackAndTrace/frontend/src/components/AdminCreateItem.tsx: read from the
-- event of the finalized transaction. Waiting for the finalization and decoding the event are the
-- SDK's: parameters.
pub mod Shown
mod Tests
use concordium_dapp_examples.Common.{
  ◌++◌, List, [], ◌∷◌, Option, none, some, Text, codes, Settled, fulfilled, rejected, ◌>>=◌,
}
use concordium_dapp_examples.Common.Int.{ℤ}
use concordium_dapp_examples.Js.{bigint_to_string}
use concordium_dapp_examples.Trace.TokenIdU64.{from_token_id_u64}

pub record State : Type 0 where
  pub new_item_id : Option ℤ
  pub item_id_error : Option Text

abbrev pub initial_state : State
initial_state = record { new_item_id = none; item_id_error = none }

-- `report.summary`: an executed update with the logs of its events, or anything else.
pub data Summary (E : Type 0) : Type 0 where
  updated : List (List E) → Summary E
  other : Summary E

-- What the engine and the generated client throw: the message of reading a field of `undefined`, that
-- of `BigInt`, and `parseEvent`, which is also called with `undefined`.
pub record Decoder (E : Type 0) : Type 0 where
  pub type_error : Text
  pub syntax_error : Text
  pub item_id : Option E → Settled Text

module _ {E : Type 0} (d : Decoder E) where
  first_log : List (List E) → Settled (Option E)
  first_log [] = rejected d.type_error
  first_log ([] ∷ events) = fulfilled none
  first_log ((log ∷ logs) ∷ events) = fulfilled (some log)

  id_or_error : Option ℤ → Settled ℤ
  id_or_error none = rejected d.syntax_error
  id_or_error (some id) = fulfilled id

  logged_id : List (List E) → Settled ℤ
  unfolding first_log id_or_error from_token_id_u64
  logged_id events = do
    log ← first_log events
    token_id ← d.item_id log
    id_or_error (from_token_id_u64 token_id)

  -- `catch`, which also sees what `then` throws.
  show_id : Settled ℤ → State → State
  show_id (fulfilled id) s = record s { new_item_id = some id }
  show_id (rejected message) s = record { new_item_id = none; item_id_error = some message }

  unfoldable pub on_report : Settled (Summary E) → State → State
  unfolding show_id logged_id
  on_report (rejected message) s = show_id (rejected message) s
  on_report (fulfilled (updated events)) s = show_id (logged_id events) s
  on_report (fulfilled other) s = record s {
    item_id_error = some (codes "Tansaction failed and event decoding failed.");
  }

-- The alert with the id.
unfoldable pub id_alert : State → Option Text
id_alert s = elim s.new_item_id [
  | none ↦ none
  | some id ↦ some (codes "Item ID: " ++ bigint_to_string id)
]
