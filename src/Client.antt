-- ===== src/Client.antt =====
-- low-code-nft-marketplace/common-ui/src/models/ConcordiumContractClient.ts: sending a transaction
-- through the wallet and following it until it is finalized. The wallet, the node and the SDK's
-- check of amounts are the parameter `Provider`. A promise that is still waiting when the fuel of
-- the poll has run out is `none`; `Client.Polling` shows how much fuel a report needs.
pub mod Polling
pub mod Outcomes
pub mod Amounts
pub mod Sending
mod Tests
use concordium_dapp_examples.Common.{
  ℕ, zero, suc, ◌+◌, ◌*◌, ◌++◌, List, [], ◌∷◌, Option, none, some, Text, codes, Settled, fulfilled,
  rejected, then_do,
}
use concordium_dapp_examples.Common.Int.{ℤ, pos, ◌*ℤ◌}

-- `ContractAddress`
pub record ContractAddress : Type 0 where
  pub index : ℤ
  pub subindex : ℤ

-- `AccountTransactionSummary` by its `transactionType`; `other` stands for the kinds that the
-- client does not tell apart.
pub data AccountTransaction : Type 0 where
  failed : Text → AccountTransaction
  init_contract : ContractAddress → AccountTransaction
  update : AccountTransaction
  other : Text → AccountTransaction

-- `summary` of a `BlockItemSummaryInBlock`, by its `type`.
pub data Summary : Type 0 where
  update_transaction account_creation : Summary
  account_transaction : AccountTransaction → Summary

pub data TransactionStatus : Type 0 where
  received committed : TransactionStatus
  finalized : Option Summary → TransactionStatus

-- The payload of the transactions that the client sends.
pub data Payload : Type 0 where
  init_payload : (amount : ℤ) (module_ref init_name : Text) (energy : ℤ) → Payload
  update_payload :
      (energy : ℤ) (address : ContractAddress) (amount : ℤ) (receive_name : Text) → Payload

-- The arguments of `provider.sendTransaction`, over the type `P` of contract parameters.
pub record Request (P : Type 0) : Type 0 where
  pub account : Text
  pub payload : Payload
  pub params : Option P
  pub schema : Text

-- `send` is the wallet, `status h k` the node's answer to the k-th question about `h`, and
-- `ccd_error n` the message with which the SDK's `new CcdAmount(n)` throws, if it throws.
pub record Provider (P : Type 0) : Type 0 where
  pub ccd_error : ℤ → Option Text
  pub send : Request P → Settled Text
  pub status : Text → ℕ → Settled TransactionStatus

-- `ContractInfo`
pub record ContractInfo : Type 0 where
  pub schema_buffer : Text
  pub contract_name : Text
  pub module_ref : Option Text

abbrev pub micro_ccd_in_ccd : ℤ
micro_ccd_in_ccd = pos 1000000

-- `new CcdAmount(n)`, which throws or holds n micro CCD.
abbrev pub ccd_or : Option Text → ℤ → Settled ℤ
ccd_or none micro_ccd = fulfilled micro_ccd
ccd_or (some e) micro_ccd = rejected e

-- `toCcd`, in micro CCD.
unfoldable pub to_ccd : (ℤ → Option Text) → ℤ → Settled ℤ
to_ccd ccd_error ccd_amount =
    ccd_or (ccd_error (ccd_amount *ℤ micro_ccd_in_ccd)) (ccd_amount *ℤ micro_ccd_in_ccd)

-- `_wait`: ask, and ask again a second later while the transaction is not finalized.
unfoldable pub wait : (ℕ → Settled TransactionStatus) → ℕ → ℕ → Option (Settled (Option Summary))
wait reports zero k = none
wait reports (suc fuel) k = elim (reports k) [
  | rejected e ↦ some (rejected e)
  | fulfilled status ↦ elim status [
    | received ↦ wait reports fuel (k + 1)
    | committed ↦ wait reports fuel (k + 1)
    | finalized outcome ↦ some (fulfilled outcome)
  ]
]

unfoldable pub ensure_valid_outcome : Option Summary → Settled Summary
ensure_valid_outcome none = rejected (codes "Null Outcome")
ensure_valid_outcome (some update_transaction) =
    rejected (codes "Invalid Transaction Type: updateTransaction")
ensure_valid_outcome (some account_creation) =
    rejected (codes "Invalid Transaction Type: accountCreation")
ensure_valid_outcome (some (account_transaction (failed tag))) =
    rejected (codes "Transaction failed, reason: " ++ tag)
ensure_valid_outcome (some (account_transaction (init_contract address))) =
    fulfilled (account_transaction (init_contract address))
ensure_valid_outcome (some (account_transaction update)) = fulfilled (account_transaction update)
ensure_valid_outcome (some (account_transaction (other kind))) =
    fulfilled (account_transaction (other kind))

unfoldable pub parse_contract_address : Summary → Settled ContractAddress
parse_contract_address (account_transaction (init_contract address)) = fulfilled address
parse_contract_address (account_transaction _) =
    rejected (codes "Invalid Account Transaction Type: accountTransaction")
parse_contract_address update_transaction =
    rejected (codes "Invalid Transaction Type: updateTransaction")
parse_contract_address account_creation =
    rejected (codes "Invalid Transaction Type: accountCreation")

-- What an async call did: the requests that it sent, and how it settled (`none`: not yet).
pub record Run (P A : Type 0) : Type 0 where
  pub sent : List (Request P)
  pub result : Option (Settled A)

-- `await waitForTransaction(...)` and then `ensureValidOutcome`.
unfoldable pub wait_and_throw_error : (ℕ → Settled TransactionStatus) → ℕ → Option (Settled Summary)
wait_and_throw_error reports fuel = then_do (wait reports fuel 0) ensure_valid_outcome

module _ {P : Type 0} where
  -- `await provider.sendTransaction(...)` and then the wait for the outcome.
  unfoldable pub follow : Provider P → Request P → ℕ → Option (Settled Summary)
  unfolding wait_and_throw_error
  follow provider request fuel = elim (provider.send request) [
    | rejected e ↦ some (rejected e)
    | fulfilled hash ↦ wait_and_throw_error (provider.status hash) fuel
  ]

  -- The payload needs the amount first: what `toCcd` throws rejects the call before the wallet is
  -- asked.
  unfoldable pub send_amount :
      {A : Type 0} → Settled ℤ → (ℤ → Request P) → (Request P → Option (Settled A)) → Run P A
  send_amount (rejected e) request answer = record { sent = []; result = some (rejected e) }
  send_amount (fulfilled amount) request answer = record {
    sent = request amount ∷ [];
    result = answer (request amount);
  }

  abbrev pub update_request : ContractInfo → P → Text → ContractAddress → Text → ℤ → ℤ → Request P
  update_request info params account address method energy micro_ccd = record {
    account = account;
    payload = update_payload energy address micro_ccd (info.contract_name ++ (codes "." ++ method));
    params = some params;
    schema = info.schema_buffer;
  }

  unfoldable pub update_contract :
      Provider P → ContractInfo → P → Text → ContractAddress → Text → ℤ → ℤ → ℕ → Run P Summary
  unfolding follow to_ccd send_amount
  update_contract provider info params account address method energy amount fuel =
      send_amount (to_ccd provider.ccd_error amount)
        (update_request info params account address method energy)
        (λ request. follow provider request fuel)

  abbrev pub init_request : ContractInfo → Text → Text → Option P → ℤ → ℤ → Request P
  init_request info module_ref account params energy micro_ccd = record {
    account = account;
    payload = init_payload micro_ccd module_ref info.contract_name energy;
    params = params;
    schema = info.schema_buffer;
  }

  -- `initContract`, after the test of `moduleRef`.
  unfoldable pub init_module :
      Provider P → ContractInfo → Text → Option P → ℤ → ℤ → ℕ → Option Text → Run P ContractAddress
  unfolding follow to_ccd send_amount
  init_module provider info account params energy amount fuel none = record {
    sent = [];
    result = some (rejected (codes "Cannot instantiate a Module without Provided Module Ref"));
  }
  init_module provider info account params energy amount fuel (some ref) =
      send_amount (to_ccd provider.ccd_error amount) (init_request info ref account params energy)
        (λ request. then_do (follow provider request fuel) parse_contract_address)

  unfoldable pub init_contract_client :
      Provider P → ContractInfo → Text → Option P → ℤ → ℤ → ℕ → Run P ContractAddress
  unfolding init_module
  init_contract_client provider info account params energy amount fuel =
      init_module provider info account params energy amount fuel info.module_ref
