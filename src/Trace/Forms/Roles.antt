-- ===== src/Trace/Forms/Roles.antt =====
-- What the forms of the administrator ask the wallet for.
use mathlib.Core.Path.{subst}
use concordium_dapp_examples.Common.{
  ◌≡◌, refl, sym, Bool, true, false, [], ◌∷◌, Option, none, some, Text, codes, Settled, fulfilled,
  rejected, if◌then◌else◌,
}
use concordium_dapp_examples.DryRun.{Simulation, Request, Outcome, Contract, dry_run_and_send}
use concordium_dapp_examples.DryRun.Sending.{Judged, dry_run_and_send_cases}
use concordium_dapp_examples.Trace.Contract.{
  Node, RoleParameter, Status, UpdateStateMachineParameter, CreateItemParameter, add_role,
  remove_role, update_state_machine, create_item,
}
use concordium_dapp_examples.Trace.Contract.Update.{add, remove}
use concordium_dapp_examples.Trace.Forms.{
  State, Click, threw, called, Addresses, decoded, with_wallet, role_parameter, submit_role,
  submit_rule, submit_item,
}

module _ {Address : Type 0} (addresses : Addresses Address) where
  -- A text that is the address of an account.
  pub record Reads (text : Option Text) (a : Address) : Type 0 where
    pub digits : Text
    pub given : text ≡ some digits
    pub decoded : addresses.from_base58 digits ≡ fulfilled a

  -- The call of a click was made for a connected wallet, by its account.
  record Connected {P : Type 0} (call : Text → Outcome P) (connected : Bool) (account : Option Text)
      (o : Outcome P) : Type 0 where
    pub sender : Address
    pub account_reads : Reads account sender
    pub is_connected : connected ≡ true
    pub outcome : o ≡ call (addresses.address sender)

  decoded-called :
      {P : Type 0} (text : Text) (s t : State) (next : Address → Click P) (o : Outcome P)
      → decoded addresses text s next ≡ called t o
      → (a : Address) × Reads (some text) a × (next a ≡ called t o)
  unfolding decoded
  decoded-called {P} text s t next o h = go (addresses.from_base58 text) refl h
    where
      go :
          (m : Settled Address)
          → addresses.from_base58 text ≡ m
          → ◌≡◌ {A = Click P}
              (elim m [ fulfilled a ↦ next a | rejected e ↦ threw s e ])
              (called t o)
          → (a : Address) × Reads (some text) a × (next a ≡ called t o)
      go (fulfilled a) e h = (a, record { digits = text; given = refl; decoded = e }, h)
      go (rejected m) e h = cc

  with_wallet-called :
      {P : Type 0} (call : Text → Outcome P) (connected : Bool) (account : Option Text)
      (s t : State) (o : Outcome P)
      → with_wallet addresses call connected account s ≡ called t o
      → Connected call connected account o
  unfolding with_wallet
  with_wallet-called call connected none s t o h = cc
  with_wallet-called call connected (some []) s t o h = cc
  with_wallet-called call false (some (d ∷ account)) s t o h = cc
  with_wallet-called call true (some (d ∷ account)) s t o h =
      let (a, reads, asked) = decoded-called (d ∷ account) s t _ o h in
      record { sender = a; account_reads = reads; is_connected = refl; outcome = cc }

  -- The click asked, or refused to ask, for the decoded account, by the entry point of the method.
  abbrev pub Asks :
      {V P : Type 0}
      → Contract V
      → (Request P → Settled Text)
      → Bool
      → Option Text
      → (Text → P → Settled (Option (Simulation V)))
      → Text
      → P
      → Outcome P
      → Type 0
  Asks c wallet connected account node method parameter o =
      (sender : Address) × Reads account sender
      × (connected ≡ true)
      × Judged node wallet c method (addresses.address sender) parameter
          (node (addresses.address sender) parameter) o

  Asks-of_Connected :
      {V P : Type 0} (c : Contract V) (wallet : Request P → Settled Text) (connected : Bool)
      (account : Option Text) (node : Text → P → Settled (Option (Simulation V))) (method : Text)
      (parameter : P) (o : Outcome P)
      → Connected
          (λ sender. dry_run_and_send node wallet c method sender parameter)
          connected
          account
          o
      → Asks c wallet connected account node method parameter o
  Asks-of_Connected c wallet connected account node method parameter o h = (
    h.sender,
    h.account_reads,
    h.is_connected,
    subst
        (λ o.
          Judged node wallet c method (addresses.address h.sender) parameter
            (node (addresses.address h.sender) parameter) o)
        (sym h.outcome)
        (dry_run_and_send_cases node wallet c method (addresses.address h.sender) parameter),
  )

  module _ {V : Type 0} (node : Node V Address) (c : Contract V) where
    abbrev pub role_simulation :
        Bool → Text → RoleParameter Address → Settled (Option (Simulation V))
    role_simulation true = node.dry_run_grant_role
    role_simulation false = node.dry_run_revoke_role

    abbrev pub role_method : Bool → Text
    role_method true = codes "grantRole"
    role_method false = codes "revokeRole"

    role_parameter-called :
        (address : Option Text) (s t : State)
        (next : RoleParameter Address → Click (RoleParameter Address))
        (o : Outcome (RoleParameter Address))
        → role_parameter addresses node c address s next ≡ called t o
        → (a : Address) × Reads address a × (next (record { account = a }) ≡ called t o)
    unfolding role_parameter
    role_parameter-called none s t next o h = cc
    role_parameter-called (some text) s t next o h = decoded-called text s t _ o h

    role_call :
        (wallet : Request (RoleParameter Address) → Settled Text) (connected : Bool)
        (account : Option Text) (add_admin : Bool) (parameter : RoleParameter Address) (s t : State)
        (o : Outcome (RoleParameter Address))
        → with_wallet addresses
            (λ sender.
              if add_admin
              then add_role node c wallet sender parameter
              else remove_role node c wallet sender parameter)
            connected
            account
            s
          ≡ called t o
        → Asks c wallet connected account
            (role_simulation add_admin)
            (role_method add_admin)
            parameter
            o
    unfolding add_role remove_role
    role_call wallet connected account true parameter s t o h =
        Asks-of_Connected c wallet connected account node.dry_run_grant_role (codes "grantRole")
          parameter o (with_wallet-called _ connected account s t o h)
    role_call wallet connected account false parameter s t o h =
        Asks-of_Connected c wallet connected account node.dry_run_revoke_role (codes "revokeRole")
          parameter o (with_wallet-called _ connected account s t o h)

    -- If a click on the role form calls the contract, the wallet is connected, the account and the
    -- given address are decoded, and, by grantRole when an administrator is added and revokeRole
    -- otherwise: either the simulation for that role and address succeeds and the wallet is asked
    -- once, by the account, with no CCD, the energy of the simulation plus 200 and that parameter,
    -- or the simulation does not succeed, the wallet is not asked and the call is rejected.
    pub submit_role-Asks :
        (wallet : Request (RoleParameter Address) → Settled Text) (connected : Bool)
        (account : Option Text) (add_admin : Bool) (address : Option Text) (s t : State)
        (o : Outcome (RoleParameter Address))
        → submit_role addresses node c wallet connected account add_admin address s ≡ called t o
        → (a : Address) × Reads address a
          × Asks c wallet connected account
              (role_simulation add_admin)
              (role_method add_admin)
              (record { account = a })
              o
    unfolding submit_role
    submit_role-Asks wallet connected account add_admin address s t o h =
        let (a, reads, asked) = role_parameter-called address _ t _ o h in
        (a, reads, role_call wallet connected account add_admin _ _ t o asked)

    -- If a click on the rule form calls the contract, the wallet is connected, the account and the
    -- given address are decoded, both statuses are chosen, and: either the simulation of
    -- updateStateMachine for the address, the two statuses and the chosen update succeeds and the
    -- wallet is asked once, by the account, with no CCD, the energy of the simulation plus 200 and
    -- that parameter, or the simulation does not succeed, the wallet is not asked and the call is
    -- rejected.
    pub submit_rule-Asks :
        (wallet : Request (UpdateStateMachineParameter Address) → Settled Text) (connected : Bool)
        (account : Option Text) (is_update_add : Bool) (from_status to_status : Option Status)
        (address : Option Text) (s t : State) (o : Outcome (UpdateStateMachineParameter Address))
        → submit_rule addresses node c wallet connected account is_update_add from_status to_status
            address s
          ≡ called t o
        → (a : Address) × (from to : Status) × Reads address a
          × (from_status ≡ some from)
          × (to_status ≡ some to)
          × Asks c wallet connected account node.dry_run_update_state_machine
              (codes "updateStateMachine")
              (record {
                address = a;
                to_status = to;
                from_status = from;
                update = if is_update_add then add else remove;
              })
              o
    unfolding submit_rule update_state_machine
    submit_rule-Asks wallet connected account is_update_add from_status to_status none s t o h = cc
    submit_rule-Asks wallet connected account is_update_add none to_status (some text) s t o h = cc
    submit_rule-Asks wallet connected account is_update_add (some from) none (some text) s t o h =
        cc
    submit_rule-Asks wallet connected account is_update_add (some from) (some to) (some text) s t o
          h =
        let (a, reads, asked) = decoded-called text _ t _ o h in
        (
          a,
          from,
          to,
          reads,
          refl,
          refl,
          Asks-of_Connected c wallet connected account node.dry_run_update_state_machine
              (codes "updateStateMachine") _ o (with_wallet-called _ connected account _ t o asked),
        )

    -- x
    pub submit_item-Asks :
        (wallet : Request CreateItemParameter → Settled Text) (connected : Bool)
        (account url : Option Text) (s t : State) (o : Outcome CreateItemParameter)
        → submit_item addresses node c wallet connected account url s ≡ called t o
        → (text : Text) × (url ≡ some text)
          × Asks c wallet connected account node.dry_run_create_item
              (codes "createItem")
              (record { url = text })
              o
    unfolding submit_item create_item
    submit_item-Asks wallet connected account none s t o h = cc
    submit_item-Asks wallet connected account (some text) s t o h = (
      text,
      refl,
      Asks-of_Connected c wallet connected account node.dry_run_create_item (codes "createItem") _ o
          (with_wallet-called _ connected account _ t o h),
    )
