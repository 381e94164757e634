-- ===== src/Market/SellPage.antt =====
-- pages/SellPage.tsx: the wizard from a collection to a listed token. A `CIS2Contract` is made by the
-- SDK for an address, and stands here for that address. `onGetCollectionAddress` reads `state` before
-- it awaits the SDK, so its callback writes a state that it captured earlier.
pub mod Wizard
mod Tests
use concordium_dapp_examples.Common.{
  ◌≡◌, Bool, true, false, List, [], ◌∷◌, ◌++◌, Text, codes, Option, none, some, if◌then◌else◌,
}
use concordium_dapp_examples.Common.Int.{ℤ}
use concordium_dapp_examples.Client.{ContractAddress}

pub data Steps : Type 0 where
  find_collection check_operator update_operator check_token_balance add_token : Steps

unfoldable pub title : Steps → Text
title find_collection = codes "NFT Collection Contract Index"
title check_operator = codes "Check Ownership"
title update_operator = codes "Update Ownership"
title check_token_balance = codes "Check Token Balance"
title add_token = codes "Add Token"

pub record Cis2Contract : Type 0 where
  pub contract_address : ContractAddress

pub record State : Type 0 where
  pub active_step : Steps
  pub nft_contract : Option ContractAddress
  pub cis2_contract : Option Cis2Contract
  pub token_id : Option Text
  pub total_balance : Option ℤ

unfoldable pub initial_state : State
initial_state = record {
  active_step = find_collection;
  nft_contract = none;
  cis2_contract = none;
  token_id = none;
  total_balance = none;
}

-- `onGetCollectionAddress`, when the awaited contract has arrived.
unfoldable pub on_get_collection_address :
    (captured : State) → ContractAddress → Cis2Contract → State
on_get_collection_address captured address contract = record captured {
  active_step = check_operator;
  nft_contract = some address;
  cis2_contract = some contract;
}

unfoldable pub on_check_operator : Bool → State → State
on_check_operator has_ownership s =
    if has_ownership
    then record s { active_step = check_token_balance }
    else record s { active_step = update_operator }

unfoldable pub on_update_operator : State → State
on_update_operator s = record s { active_step = check_token_balance }

unfoldable pub on_token_balance : Text → ℤ → State → State
on_token_balance id total s = record s {
  active_step = add_token;
  token_id = some id;
  total_balance = some total;
}

-- What `StepContent` renders. The options stand for `cis2Contract!`, `nftContract!`, `tokenId!` and
-- `totalBalance!`.
pub data Content : Type 0 where
  find_instance : Content
  operator_of : Option Cis2Contract → Content
  update_operator_of : Option Cis2Contract → Content
  balance_of : Option Cis2Contract → Content
  marketplace_add : Option ContractAddress → Option Text → Option ℤ → Content

step_content_of : Steps → State → Content
step_content_of find_collection s = find_instance
step_content_of check_operator s = operator_of s.cis2_contract
step_content_of update_operator s = update_operator_of s.cis2_contract
step_content_of check_token_balance s = balance_of s.cis2_contract
step_content_of add_token s = marketplace_add s.nft_contract s.token_id s.total_balance

unfoldable pub step_content : State → Content
unfolding step_content_of
step_content s = step_content_of s.active_step s

-- A call of `onGetCollectionAddress` that waits for the SDK.
pub record Waiting : Type 0 where
  pub captured : State
  pub address : ContractAddress

-- The page, and the calls that wait. The last two are a record of what the user's account has
-- shown: the collection for which the marketplace is known to be an operator, and what the balance
-- question answered, with the collection that it was put to.
pub record World : Type 0 where
  pub state : State
  pub waiting : List Waiting
  pub approved : List Cis2Contract
  pub balances : List (Cis2Contract × Text × ℤ)

pub data Step : World → World → Type 0 where
  found :
      (w : World) (a : ContractAddress)
      → w.state.active_step ≡ find_collection
      → Step w (record w { waiting = record { captured = w.state; address = a } ∷ w.waiting })
  created :
      (w : World) (earlier later : List Waiting) (c : Waiting)
      → w.waiting ≡ earlier ++ (c ∷ later)
      → Step w (record w {
        state =
            on_get_collection_address c.captured c.address
              (record { contract_address = c.address });
        waiting = earlier ++ later;
      })
  not_created :
      (w : World) (earlier later : List Waiting) (c : Waiting)
      → w.waiting ≡ earlier ++ (c ∷ later)
      → Step w (record w { waiting = earlier ++ later })
  is_operator :
      (w : World) (contract : Cis2Contract)
      → step_content w.state ≡ operator_of (some contract)
      → Step w
          (record w { state = on_check_operator true w.state; approved = contract ∷ w.approved })
  no_operator :
      (w : World) (contract : Cis2Contract)
      → step_content w.state ≡ operator_of (some contract)
      → Step w (record w { state = on_check_operator false w.state })
  updated :
      (w : World) (contract : Cis2Contract)
      → step_content w.state ≡ update_operator_of (some contract)
      → Step w (record w { state = on_update_operator w.state; approved = contract ∷ w.approved })
  balance :
      (w : World) (contract : Cis2Contract) (id : Text) (total : ℤ)
      → step_content w.state ≡ balance_of (some contract)
      → Step w (record w {
        state = on_token_balance id total w.state;
        balances = (contract, id, total) ∷ w.balances;
      })

abbrev pub start : World
start = record { state = initial_state; waiting = []; approved = []; balances = [] }

pub data Reach : World → Type 0 where
  here : Reach start
  next : {w v : World} → Reach w → Step w v → Reach v
