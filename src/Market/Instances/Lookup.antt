-- ===== src/Market/Instances/Lookup.antt =====
-- Which instances are handed on.
use mathlib.Core.Path.{subst}
use concordium_dapp_examples.Common.{
  ◌≡◌, refl, ◌⊎◌, inl, inr, ap, ◌∙◌, Text, [], ◌∷◌, Option, none, some, Settled, fulfilled,
  rejected, arith, ℕ,
}
use concordium_dapp_examples.Common.Int.{ℤ, pos, ◌*ℤ◌, ◌≤ℤ◌}
use concordium_dapp_examples.Js.{bigint, parse_int}
use concordium_dapp_examples.Client.{
  ContractAddress, ContractInfo, Provider, Request, init_payload, account_transaction,
  init_contract,
}
use concordium_dapp_examples.Client.Sending.{IsFinalized, init_contract_client_sound}
use concordium_dapp_examples.Market.Instances.{
  InitState, InitParams, or_zero, hundredfold, submit_market, create_market, on_market_created,
  FindState, asked, submit_find, read_address, check_address, on_instance,
}

check_address_sound :
    (s t : FindState) (i j : ℤ) (a : ContractAddress)
    → check_address s i j ≡ asked t a
    → (i ≡ a.index) × (j ≡ a.subindex) × (pos 0 ≤ℤ i) × (pos 0 ≤ℤ j)
unfolding check_address
check_address_sound s t i j a h = ground arith

read_address_sound :
    (s t : FindState) (o p : Option ℤ) (a : ContractAddress)
    → read_address s o p ≡ asked t a
    → (o ≡ some a.index) × (p ≡ some a.subindex) × (pos 0 ≤ℤ a.index) × (pos 0 ≤ℤ a.subindex)
unfolding read_address
read_address_sound s t none p a h = absurd (cc)
read_address_sound s t (some i) none a h = absurd (cc)
read_address_sound s t (some i) (some j) a h =
    let (p, q, m, n) = check_address_sound s t i j a h in
    (ap some p, ap some q, subst (λ k. pos 0 ≤ℤ k) p m, subst (λ k. pos 0 ≤ℤ k) q n)

on_instance_done :
    (captured : FindState) (a b : ContractAddress) (r : Settled (Unit {0}))
    → (on_instance captured a r).1 ≡ some b
    → (a ≡ b) × (r ≡ fulfilled tt)
unfolding on_instance
on_instance_done captured a b (fulfilled u) h = (cc, refl)
on_instance_done captured a b (rejected e) h = absurd (cc)

-- The lookup of an instance only hands on an address whose two texts are numbers that are not
-- negative and that the node knows.
pub lookup_sound :
    (instance_info : ContractAddress → Settled (Unit {0}))
    (index_field subindex_field : Option Text) (s t : FindState) (a b : ContractAddress)
    → submit_find index_field subindex_field s ≡ asked t a
    → (on_instance s a (instance_info a)).1 ≡ some b
    → (bigint (or_zero index_field) ≡ some b.index)
      × (bigint (or_zero subindex_field) ≡ some b.subindex)
      × (pos 0 ≤ℤ b.index)
      × (pos 0 ≤ℤ b.subindex)
      × (instance_info b ≡ fulfilled tt)
unfolding submit_find
lookup_sound instance_info index_field subindex_field s t a b h done =
    let (same, known) = on_instance_done s a b (instance_info a) done in
    let (p, q, m, n) =
      read_address_sound s t (bigint (or_zero index_field)) (bigint (or_zero subindex_field)) a h in
    subst
      (λ c.
        (bigint (or_zero index_field) ≡ some c.index)
        × (bigint (or_zero subindex_field) ≡ some c.subindex)
        × (pos 0 ≤ℤ c.index)
        × (pos 0 ≤ℤ c.subindex)
        × (instance_info c ≡ fulfilled tt))
      same (p, q, m, n, known)

on_market_created_done :
    (captured : InitState) (r : Settled ContractAddress) (a : ContractAddress)
    → (on_market_created captured r).1 ≡ some a
    → r ≡ fulfilled a
unfolding on_market_created
on_market_created_done captured (fulfilled b) a h = cc
on_market_created_done captured (rejected e) a h = absurd (cc)

-- The commission of a new marketplace is a hundred times the number that is read from the field,
-- which is 0 if it is absent, or NaN if no number can be read.
abbrev pub Charges : Option Text → InitParams → Type 0
Charges field params =
    ((n : ℤ) × (parse_int (or_zero field) ≡ some n) × (params.commission ≡ some (n *ℤ pos 100)))
    ⊎ ((parse_int (or_zero field) ≡ none) × (params.commission ≡ none))

hundredfold_cases :
    (o : Option ℤ)
    → ((n : ℤ) × (o ≡ some n) × (hundredfold o ≡ some (n *ℤ pos 100)))
      ⊎ ((o ≡ none) × (hundredfold o ≡ none))
hundredfold_cases none = inr (refl, refl)
hundredfold_cases (some n) = inl (n, refl, refl)

submit_market-Charges :
    (field : Option Text) (s : InitState) → Charges field (submit_market field s).1
unfolding submit_market
submit_market-Charges field s = hundredfold_cases (parse_int (or_zero field))

-- If the marketplace form hands on an address after its request settled, exactly one request was
-- sent, by the account, for the module and the contract of the contract info and without CCD; its
-- commission is a hundred times the number that is read from the field, or NaN if there is none;
-- and the address is that of its finalized initialisation.
pub create_market_sound :
    (provider : Provider InitParams) (info : ContractInfo) (account : Text) (field : Option Text)
    (s : InitState) (energy : ℤ) (fuel : ℕ) (r : Settled ContractAddress) (a : ContractAddress)
    → (create_market provider info account (submit_market field s).1 energy fuel).result ≡ some r
    → (on_market_created s r).1 ≡ some a
    → (module_ref : Text) × (params : InitParams) × (request : Request InitParams)
      × (info.module_ref ≡ some module_ref)
      × ((create_market provider info account (submit_market field s).1 energy fuel).sent
          ≡ request ∷ [])
      × (request.account ≡ account)
      × (request.payload ≡ init_payload (pos 0) module_ref info.contract_name energy)
      × (request.params ≡ some params)
      × Charges field params
      × IsFinalized provider request (account_transaction (init_contract a))
unfolding create_market ◌*ℤ◌
create_market_sound provider info account field s energy fuel r a h done =
    let settled : some r ≡ some (fulfilled a) = ap some (on_market_created_done s r a done) in
    let (module_ref, request, named, sent, init, finalized) =
      init_contract_client_sound provider info account (some (submit_market field s).1) energy
        (pos 0) fuel a (h ∙ settled) in
    (
      module_ref,
      (submit_market field s).1,
      request,
      named,
      sent,
      init.by_account,
      init.of_module,
      init.with_params,
      submit_market-Charges field s,
      finalized,
    )
