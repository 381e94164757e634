-- ===== src/Client/Outcomes.antt =====
-- Which transaction outcomes count as success.
use concordium_dapp_examples.Common.{◌≡◌, Option, none, some, Text, fulfilled}
use mathlib.Core.Path.{subst, refl}
use concordium_dapp_examples.Client.{
  Summary, update_transaction, account_creation, account_transaction, failed, init_contract, update,
  other, ContractAddress, ensure_valid_outcome, parse_contract_address,
}

-- The transaction was executed: an account transaction that did not fail.
pub data IsExecuted : Summary → Type 0 where
  initialised : (a : ContractAddress) → IsExecuted (account_transaction (init_contract a))
  updated : IsExecuted (account_transaction update)
  executed : (kind : Text) → IsExecuted (account_transaction (other kind))

-- An outcome that passes the check is the one that was given, and it is an account transaction
-- that did not fail.
pub ensure_valid_outcome_sound :
    (o : Option Summary) (s : Summary)
    → ensure_valid_outcome o ≡ fulfilled s
    → (o ≡ some s) × IsExecuted s
unfolding ensure_valid_outcome
ensure_valid_outcome_sound none s h = cc
ensure_valid_outcome_sound (some update_transaction) s h = cc
ensure_valid_outcome_sound (some account_creation) s h = cc
ensure_valid_outcome_sound (some (account_transaction (failed tag))) s h = cc
ensure_valid_outcome_sound (some (account_transaction (init_contract a))) s h =
    (cc, subst IsExecuted (cc) (initialised a))
ensure_valid_outcome_sound (some (account_transaction update)) s h =
    (cc, subst IsExecuted (cc) updated)
ensure_valid_outcome_sound (some (account_transaction (other kind))) s h =
    (cc, subst IsExecuted (cc) (executed kind))

pub ensure_valid_outcome_complete :
    (s : Summary) → IsExecuted s → ensure_valid_outcome (some s) ≡ fulfilled s
unfolding ensure_valid_outcome
ensure_valid_outcome_complete s (initialised a) = refl
ensure_valid_outcome_complete s updated = refl
ensure_valid_outcome_complete s (executed kind) = refl

pub parse_contract_address_sound :
    (s : Summary) (a : ContractAddress)
    → parse_contract_address s ≡ fulfilled a
    → s ≡ account_transaction (init_contract a)
unfolding parse_contract_address
parse_contract_address_sound update_transaction a h = cc
parse_contract_address_sound account_creation a h = cc
parse_contract_address_sound (account_transaction (failed t)) a h = cc
parse_contract_address_sound (account_transaction (init_contract b)) a h = cc
parse_contract_address_sound (account_transaction update) a h = cc
parse_contract_address_sound (account_transaction (other k)) a h = cc
