-- ===== src/Trace/Contract.antt =====
-- trackAndTrace/frontend/src/track_and_trace_contract.tsx: the calls of the track and trace
-- contract. The generated clients of the entry points are parameters.
use concordium_dapp_examples.Common.{Text, codes, Settled, Option}
use concordium_dapp_examples.DryRun.{Simulation, Request, Outcome, Contract, dry_run_and_send, view}

-- The parameter of `grantRole` and of `revokeRole`: always the role of an administrator, of an account.
pub record RoleParameter (Address : Type 0) : Type 0 where
  pub account : Address

pub data Status : Type 0 where
  produced in_transit in_store sold : Status

pub data Update : Type 0 where
  add remove : Update

pub record UpdateStateMachineParameter (Address : Type 0) : Type 0 where
  pub address : Address
  pub to_status : Status
  pub from_status : Status
  pub update : Update

-- The parameter of `createItem`: a metadata url without a hash.
pub record CreateItemParameter : Type 0 where
  pub url : Text

-- The simulations of the four entry points, for a sender and a parameter.
pub record Node (V Address : Type 0) : Type 0 where
  pub dry_run_create_item : Text → CreateItemParameter → Settled (Option (Simulation V))
  pub dry_run_revoke_role : Text → RoleParameter Address → Settled (Option (Simulation V))
  pub dry_run_grant_role : Text → RoleParameter Address → Settled (Option (Simulation V))
  pub dry_run_update_state_machine :
      Text → UpdateStateMachineParameter Address → Settled (Option (Simulation V))

module _ {V Address : Type 0} (node : Node V Address) (c : Contract V) where
  unfoldable pub create_item :
      (Request CreateItemParameter → Settled Text)
      → Text
      → CreateItemParameter
      → Outcome CreateItemParameter
  create_item wallet sender parameter =
      dry_run_and_send node.dry_run_create_item wallet c (codes "createItem") sender parameter

  unfoldable pub remove_role :
      (Request (RoleParameter Address) → Settled Text)
      → Text
      → RoleParameter Address
      → Outcome (RoleParameter Address)
  remove_role wallet sender parameter =
      dry_run_and_send node.dry_run_revoke_role wallet c (codes "revokeRole") sender parameter

  unfoldable pub update_state_machine :
      (Request (UpdateStateMachineParameter Address) → Settled Text)
      → Text
      → UpdateStateMachineParameter Address
      → Outcome (UpdateStateMachineParameter Address)
  update_state_machine wallet sender parameter =
      dry_run_and_send node.dry_run_update_state_machine wallet c (codes "updateStateMachine")
        sender parameter

  unfoldable pub add_role :
      (Request (RoleParameter Address) → Settled Text)
      → Text
      → RoleParameter Address
      → Outcome (RoleParameter Address)
  add_role wallet sender parameter =
      dry_run_and_send node.dry_run_grant_role wallet c (codes "grantRole") sender parameter

-- `nonceOf`, for the simulation of the given parameter.
unfoldable pub nonce_of :
    {V R A : Type 0}
    → (A → Settled (Option (Simulation V)))
    → (V → Option R)
    → Contract V
    → A
    → Settled R
unfolding view
nonce_of dry_run decode c parameter = view decode c (codes "nonceOf") (dry_run parameter)
