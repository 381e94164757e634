-- ===== src/Market/BalanceOf.antt =====
-- components/cis2/Cis2BalanceOf.tsx, Cis2OperatorOf.tsx and Cis2UpdateOperator.tsx: the questions
-- that the selling page asks the collection's contract. The contract is the parameter.
pub mod Answers
mod Tests
use concordium_dapp_examples.Common.{
  ℕ, Bool, true, false, [], Text, codes, Option, none, some, ◌==◌, if◌then◌else◌, Settled,
  fulfilled, rejected,
}
use concordium_dapp_examples.Common.Int.{ℤ, pos, negsuc, ltb_ℤ}

pub record State : Type 0 where
  pub checking : Bool
  pub error : Text
  pub token_id : Text

abbrev pub initial_state : State
initial_state = record { checking = false; error = []; token_id = [] }

-- What `balanceOf` settles with: a balance, or an error, with the reject reason of the contract if
-- it is caused by a rejected receive.
pub data Answer : Type 0 where
  balance : ℤ → Answer
  rejected_receive : (reason : ℤ) (message : Text) → Answer
  other_error : Text → Answer

-- `setState({ ...state, tokenId })`
unfoldable pub set_token_id : Text → State → State
set_token_id id s = record s { token_id = id }

-- `checkBalance`, up to the question.
unfoldable pub check_balance : State → State
check_balance s = record s { checking = true; error = [] }

-- The `switch` over the reject reason. -42000001 is `negsuc 42000000`.
unfoldable pub reject_message : ℤ → Text → Text
reject_message (pos n) message = message
reject_message (negsuc n) message =
    if n == 42000000
    then codes "Token not found"
    else if n == 42000001
    then codes "Insufficient Funds"
    else if n == 42000002
    then codes "Unauthorized"
    else message

-- The callbacks; `captured` is `state` at the click. The second part is the call of `onDone`.
unfoldable pub on_answer : (captured : State) → Answer → State × Option (Text × ℤ)
unfolding reject_message
on_answer captured (balance b) =
    if ltb_ℤ (pos 0) b
    then (record captured { checking = false; error = [] }, some (captured.token_id, b))
    else (record captured { checking = false; error = codes "Not enough balance" }, none)
on_answer captured (rejected_receive reason message) =
    (record captured { checking = false; error = reject_message reason message }, none)
on_answer captured (other_error message) =
    (record captured { checking = false; error = message }, none)

-- `Cis2OperatorOf`: the state has `checking` and `error` alone, and its callbacks write both.
pub record OperatorState : Type 0 where
  pub operator_checking : Bool
  pub operator_error : Text

unfoldable pub check_operator : OperatorState → OperatorState
check_operator s = record s { operator_checking = true }

unfoldable pub on_operator : Settled Bool → OperatorState × Option Bool
on_operator (fulfilled b) = (record { operator_checking = false; operator_error = [] }, some b)
on_operator (rejected message) =
    (record { operator_checking = false; operator_error = message }, none)

-- `Cis2UpdateOperator`: sends the transaction and waits for it; `onDone` is called when it succeeds.
pub record UpdateState : Type 0 where
  pub updating : Bool
  pub update_error : Text

unfoldable pub update : UpdateState → UpdateState
update s = record s { updating = true; update_error = [] }

unfoldable pub on_updated : (captured : UpdateState) → Settled (Unit {0}) → UpdateState × Bool
on_updated captured (fulfilled _) = (record captured { updating = false; update_error = [] }, true)
on_updated captured (rejected message) =
    (record captured { updating = false; update_error = message }, false)
