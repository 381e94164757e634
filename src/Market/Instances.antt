-- ===== src/Market/Instances.antt =====
-- components/MarketplaceContractInit.tsx, components/ContractFindInstance.tsx and
-- components/cis2/Cis2Init.tsx: creating an instance of a contract, and looking one up.
pub mod Lookup
mod Tests
use concordium_dapp_examples.Common.{
  Bool, true, false, not, [], Text, codes, Option, none, some, Settled, fulfilled, rejected,
  if◌then◌else◌, ℕ,
}
use concordium_dapp_examples.Common.Int.{ℤ, pos, ◌*ℤ◌, leb_ℤ}
use concordium_dapp_examples.Js.{bigint, parse_int}
use concordium_dapp_examples.Client.{
  ContractAddress, ContractInfo, Provider, Run, init_contract_client,
}

-- The two forms that create an instance have the same state.
pub record InitState : Type 0 where
  pub error : Text
  pub processing : Bool

-- `{ commission: commission * 100 }`; `none` is NaN.
pub record InitParams : Type 0 where
  pub commission : Option ℤ

abbrev pub or_zero : Option Text → Text
or_zero none = codes "0"
or_zero (some s) = s

abbrev pub hundredfold : Option ℤ → Option ℤ
hundredfold none = none
hundredfold (some n) = some (n *ℤ pos 100)

-- `submit` of the marketplace form: the new state and the parameters of the instance.
unfoldable pub submit_market : Option Text → InitState → InitState × InitParams
submit_market field s = (
  record { processing = true; error = [] },
  record { commission = hundredfold (parse_int (or_zero field)) },
)

-- The request that the marketplace form makes.
unfoldable pub create_market :
    Provider InitParams → ContractInfo → Text → InitParams → ℤ → ℕ → Run InitParams ContractAddress
unfolding init_contract_client
create_market provider info account params energy fuel =
    init_contract_client provider info account (some params) energy (pos 0) fuel

-- The callbacks; `captured` is `state` at the submit. The second part is the call of `onDone`.
unfoldable pub on_market_created :
    (captured : InitState) → Settled ContractAddress → InitState × Option ContractAddress
on_market_created captured (fulfilled address) =
    (record { processing = false; error = [] }, some address)
on_market_created captured (rejected message) =
    (record { processing = false; error = message }, none)

-- `submit` of the form for a new collection, which keeps an earlier error, and its callbacks.
unfoldable pub submit_collection : InitState → InitState
submit_collection s = record s { processing = true }

unfoldable pub create_collection :
    Provider InitParams → ContractInfo → Text → ℤ → ℕ → Run InitParams ContractAddress
unfolding init_contract_client
create_collection provider info account energy fuel =
    init_contract_client provider info account none energy (pos 0) fuel

unfoldable pub on_collection_created :
    (captured : InitState) → Settled ContractAddress → InitState × Option ContractAddress
on_collection_created captured (fulfilled address) =
    (record captured { processing = false }, some address)
on_collection_created captured (rejected message) =
    (record captured { processing = false; error = message }, none)

-- `ContractFindInstance`
pub record FindState : Type 0 where
  pub find_error : Text
  pub checking : Bool

pub data Found : Type 0 where
  thrown : FindState → Found
  refused : FindState → Found
  asked : FindState → ContractAddress → Found

abbrev checked : FindState
checked = record { find_error = []; checking = true }

check_address : FindState → ℤ → ℤ → Found
check_address s index subindex =
    if not (leb_ℤ (pos 0) index)
    then refused (record s { find_error = codes "Invalid Contract Index" })
    else if not (leb_ℤ (pos 0) subindex)
    then refused (record s { find_error = codes "Invalid Contract Subindex" })
    else asked checked (record { index = index; subindex = subindex })

read_address : FindState → Option ℤ → Option ℤ → Found
unfolding check_address
read_address s none subindex = thrown checked
read_address s (some index) none = thrown checked
read_address s (some index) (some subindex) = check_address s index subindex

unfoldable pub submit_find : Option Text → Option Text → FindState → Found
unfolding read_address
submit_find index_field subindex_field s =
    read_address s (bigint (or_zero index_field)) (bigint (or_zero subindex_field))

unfoldable pub on_instance :
    (captured : FindState)
    → ContractAddress
    → Settled (Unit {0})
    → FindState × Option ContractAddress
on_instance captured address (fulfilled _) =
    (record { checking = false; find_error = [] }, some address)
on_instance captured address (rejected message) =
    (record { checking = false; find_error = message }, none)
