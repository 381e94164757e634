-- ===== src/Trace/Forms.antt =====
-- The forms of trackAndTrace/frontend/src/components that send a transaction: AdminChangeRoles.tsx,
-- AddTransitionRule.tsx and AdminCreateItem.tsx. `AccountAddress.fromBase58` is a parameter.

pub mod Roles
mod Tests
use concordium_dapp_examples.Common.{
  Bool, true, false, [], ◌∷◌, Option, none, some, Text, codes, Settled, fulfilled, rejected,
  if◌then◌else◌,
}
use concordium_dapp_examples.DryRun.{Request, Outcome, Contract}
use concordium_dapp_examples.Trace.Contract.{
  Node, RoleParameter, Status, Update, UpdateStateMachineParameter, CreateItemParameter,
  create_item, remove_role, update_state_machine, add_role,
}
use concordium_dapp_examples.Trace.Contract.Update.{add, remove}

-- What a form shows below its fields.
pub record State : Type 0 where
  pub tx_hash : Option Text
  pub error : Option Text

abbrev pub initial_state : State
initial_state = record { tx_hash = none; error = none }

-- One click: the handler throws, or ends without a call, or calls the contract and its promise
-- settles later.
pub data Click (P : Type 0) : Type 0 where
  threw : State → Text → Click P
  ended : State → Click P
  called : State → Outcome P → Click P

-- `setError(message); throw Error(message)`
abbrev refuse : {P : Type 0} → State → Text → Click P
refuse s message = threw (record s { error = some message }) message

-- The callbacks of the promise.
unfoldable pub on_answer : Settled Text → State → State
on_answer (fulfilled hash) s = record s { tx_hash = some hash }
on_answer (rejected message) s = record s { error = some message }

not_connected : Text
not_connected = codes "Wallet is not connected. Click 'Connect Wallet' button."

-- `AccountAddress.fromBase58` and the field `address` of its result.
pub record Addresses (Address : Type 0) : Type 0 where
  pub from_base58 : Text → Settled Address
  pub address : Address → Text

-- `AccountAddress.fromBase58(text)` inside a handler: what it throws leaves the handler.
decoded : {Address P : Type 0} → Addresses Address → Text → State → (Address → Click P) → Click P
decoded addresses text s next = elim (addresses.from_base58 text) [
  | fulfilled a ↦ next a
  | rejected e ↦ threw s e
]

-- `if (accountAddress && connection) … else …`; the account's address is decoded first.
with_wallet :
    {Address P : Type 0}
    → Addresses Address
    → (Text → Outcome P)
    → Bool
    → Option Text
    → State
    → Click P
unfolding not_connected decoded
with_wallet addresses call connected none s = ended (record s { error = some not_connected })
with_wallet addresses call connected (some []) s = ended (record s { error = some not_connected })
with_wallet addresses call false (some (d ∷ account)) s =
    ended (record s { error = some not_connected })
with_wallet addresses call true (some (d ∷ account)) s =
    decoded addresses (d ∷ account) s (λ a. called s (call (addresses.address a)))

module _ {V Address : Type 0} (addresses : Addresses Address) (node : Node V Address)
    (c : Contract V) where
  -- AdminChangeRoles.tsx
  role_parameter :
      Option Text
      → State
      → (RoleParameter Address → Click (RoleParameter Address))
      → Click (RoleParameter Address)
  unfolding decoded
  role_parameter none s next = refuse s (codes "'address' input field is undefined")
  role_parameter (some address) s next =
      decoded addresses address s (λ a. next (record { account = a }))

  unfoldable pub submit_role :
      (Request (RoleParameter Address) → Settled Text)
      → Bool
      → Option Text
      → Bool
      → Option Text
      → State
      → Click (RoleParameter Address)
  unfolding role_parameter with_wallet
  submit_role wallet connected account add_admin address s =
      let cleared : State = record s { error = none } in
      role_parameter address cleared (λ parameter.
        with_wallet addresses
          (λ sender.
            if add_admin
            then add_role node c wallet sender parameter
            else remove_role node c wallet sender parameter)
          connected account cleared)

  -- AddTransitionRule.tsx
  unfoldable pub submit_rule :
      (Request (UpdateStateMachineParameter Address) → Settled Text)
      → Bool
      → Option Text
      → Bool
      → Option Status
      → Option Status
      → Option Text
      → State
      → Click (UpdateStateMachineParameter Address)
  unfolding with_wallet decoded
  submit_rule wallet connected account is_update_add from_status to_status none s =
      refuse (record s { error = none }) (codes "'address' input field is undefined")
  submit_rule wallet connected account is_update_add none to_status (some address) s =
      refuse (record s { error = none }) (codes "'from_status' input field is undefined")
  submit_rule wallet connected account is_update_add (some from) none (some address) s =
      refuse (record s { error = none }) (codes "'to_status' input field is undefined")
  submit_rule wallet connected account is_update_add (some from) (some to) (some address) s =
      let cleared : State = record s { error = none } in
      decoded addresses address cleared (λ a.
        with_wallet addresses
          (λ sender. update_state_machine node c wallet sender (record {
            address = a;
            to_status = to;
            from_status = from;
            update = if is_update_add then add else remove;
          }))
          connected account cleared)

  -- AdminCreateItem.tsx
  unfoldable pub submit_item :
      (Request CreateItemParameter → Settled Text)
      → Bool
      → Option Text
      → Option Text
      → State
      → Click CreateItemParameter
  unfolding with_wallet
  submit_item wallet connected account none s =
      refuse (record s { error = none }) (codes "'url' input field is undefined")
  submit_item wallet connected account (some url) s =
      with_wallet addresses (λ sender. create_item node c wallet sender (record { url = url }))
        connected account (record s { error = none })
