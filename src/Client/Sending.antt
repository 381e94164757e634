-- ===== src/Client/Sending.antt =====
-- Sending a transaction and following it, end to end.
use mathlib.Core.Path.{subst}
use concordium_dapp_examples.Common.{
  ℕ, ◌<◌, ◌≡◌, refl, sym, ap, inl, inr, ◌++◌, codes, Option, none, some, [], ◌∷◌, Text, Settled,
  fulfilled, rejected, then_do, then_do-eq-fulfilled,
}
use concordium_dapp_examples.Common.Int.{ℤ, pos, ◌*ℤ◌}
use concordium_dapp_examples.Client.{
  init_payload, to_ccd, send_amount, init_module, update_request, Summary, TransactionStatus,
  finalized, account_transaction, init_contract, ContractAddress, Request, Provider, ContractInfo,
  update_payload, wait, wait_and_throw_error, follow, update_contract, init_contract_client,
  ensure_valid_outcome, parse_contract_address, init_request,
}
use concordium_dapp_examples.Client.Amounts.{to_ccd-fulfilled, to_ccd-none, send_amount-fulfilled}
use concordium_dapp_examples.Client.Polling.{IsPending, Decides, wait_first, wait_sound}
use concordium_dapp_examples.Client.Outcomes.{
  IsExecuted, ensure_valid_outcome_sound, ensure_valid_outcome_complete,
  parse_contract_address_sound,
}

finalized_of_Decides :
    (r : Settled TransactionStatus) (o : Option Summary)
    → Decides r (fulfilled o)
    → r ≡ fulfilled (finalized o)
finalized_of_Decides r o (inl (o', p, q)) = cc
finalized_of_Decides r o (inr (e, p, q)) = cc

wait_and_throw_error_sound :
    (reports : ℕ → Settled TransactionStatus) (fuel : ℕ) (s : Summary)
    → wait_and_throw_error reports fuel ≡ some (fulfilled s)
    → ((n : ℕ) × (reports n ≡ fulfilled (finalized (some s)))) × IsExecuted s
unfolding wait_and_throw_error
wait_and_throw_error_sound reports fuel s h =
    let (o, waited, valid) = then_do-eq-fulfilled (wait reports fuel 0) ensure_valid_outcome h in
    let (same, ran) = ensure_valid_outcome_sound o s valid in
    let (n, decided) = wait_sound reports fuel 0 (fulfilled o) waited in
    ((n, cc (finalized_of_Decides (reports n) o decided)), ran)

-- The wallet sent the request, and the node reported the summary as finalized.
pub record IsFinalized {P : Type 0} (provider : Provider P) (request : Request P) (s : Summary)
    : Type 0 where
  pub hash : Text
  pub accepted : provider.send request ≡ fulfilled hash
  pub poll : ℕ
  pub reported : provider.status hash poll ≡ fulfilled (finalized (some s))

-- The request of an initialisation, field by field.
pub record IsInit {P : Type 0} (info : ContractInfo) (module_ref account : Text) (params : Option P)
    (energy amount : ℤ) (request : Request P) : Type 0 where
  pub by_account : request.account ≡ account
  pub of_module :
      request.payload ≡ init_payload (amount *ℤ pos 1000000) module_ref info.contract_name energy
  pub with_params : request.params ≡ params
  pub with_schema : request.schema ≡ info.schema_buffer

module _ {P : Type 0} (provider : Provider P) where
  follow_sound :
      (request : Request P) (fuel : ℕ) (s : Summary)
      → follow provider request fuel ≡ some (fulfilled s)
      → IsFinalized provider request s × IsExecuted s
  unfolding follow
  follow_sound request fuel s h = go (provider.send request) refl
    where
      go :
          (m : Settled Text)
          → provider.send request ≡ m
          → IsFinalized provider request s × IsExecuted s
      go (rejected e) p = absurd (cc (rw (p, follow) at h))
      go (fulfilled hash) p =
          let ((n, reported), ran) =
            wait_and_throw_error_sound (provider.status hash) fuel s (rw (p, follow) at h) in
          (record { hash = hash; accepted = p; poll = n; reported = reported }, ran)

  -- If an update succeeds, exactly one request was sent, its payload carries the CCD amount in
  -- micro CCD and the full method name, its parameters are the given ones, the wallet accepted it,
  -- and the node reported the returned outcome as a finalized account transaction that did not
  -- fail.
  pub update_contract_sound :
      (info : ContractInfo) (params : P) (account : Text) (address : ContractAddress)
      (method : Text) (energy amount : ℤ) (fuel : ℕ) (s : Summary)
      → (update_contract provider info params account address method energy amount fuel).result
        ≡ some (fulfilled s)
      → (request : Request P) × ((update_contract provider info params account address method energy
            amount fuel).sent
          ≡ request ∷ [])
        × (request.payload
            ≡ update_payload energy address
                (amount *ℤ pos 1000000)
                (info.contract_name ++ (codes "." ++ method)))
        × (request.params ≡ some params)
        × IsFinalized provider request s
        × IsExecuted s
  unfolding update_contract
  update_contract_sound info params account address method energy amount fuel s h =
      let (c, taken, sent, followed) =
        send_amount-fulfilled (to_ccd provider.ccd_error amount)
          (update_request info params account address method energy)
          (λ request. follow provider request fuel) s h in
      let (fine, same) = to_ccd-fulfilled provider.ccd_error amount c taken in
      let (done, ran) = follow_sound _ fuel s followed in
      (
        update_request info params account address method energy c,
        sent,
        ap (λ d. update_payload energy address d (info.contract_name ++ (codes "." ++ method)))
            (sym same),
        refl,
        done,
        ran,
      )

  -- The parsed address is that of a finalized initialisation.
  init_module_sound :
      (info : ContractInfo) (account : Text) (params : Option P) (energy amount : ℤ) (fuel : ℕ)
      (ref : Option Text) (a : ContractAddress)
      → (init_module provider info account params energy amount fuel ref).result
        ≡ some (fulfilled a)
      → (module_ref : Text) × (request : Request P) × (ref ≡ some module_ref)
        × ((init_module provider info account params energy amount fuel ref).sent ≡ request ∷ [])
        × IsInit info module_ref account params energy amount request
        × IsFinalized provider request (account_transaction (init_contract a))
  unfolding init_module
  init_module_sound info account params energy amount fuel none a h = absurd (cc)
  init_module_sound info account params energy amount fuel (some ref) a h =
      let (c, taken, sent, answered) =
        send_amount-fulfilled (to_ccd provider.ccd_error amount)
          (init_request info ref account params energy)
          (λ request. then_do (follow provider request fuel) parse_contract_address) a h in
      let (fine, same) = to_ccd-fulfilled provider.ccd_error amount c taken in
      let (s, followed, parsed) =
        then_do-eq-fulfilled (follow provider (init_request info ref account params energy c) fuel)
          parse_contract_address answered in
      let (done, ran) = follow_sound _ fuel s followed in
      (
        ref,
        init_request info ref account params energy c,
        refl,
        sent,
        record {
          by_account = refl;
          of_module = ap (λ d. init_payload d ref info.contract_name energy) (sym same);
          with_params = refl;
          with_schema = refl;
        },
        subst (IsFinalized provider (init_request info ref account params energy c))
            (parse_contract_address_sound s a parsed) done,
      )

  -- If a new instance is reported, the contract info names a module, exactly one request was sent,
  -- by the account, with the given parameters, the schema of the contract info and a payload of
  -- that module, the contract's name, the energy and the amount in micro CCD, and the address is
  -- that of its finalized initialisation.
  pub init_contract_client_sound :
      (info : ContractInfo) (account : Text) (params : Option P) (energy amount : ℤ) (fuel : ℕ)
      (a : ContractAddress)
      → (init_contract_client provider info account params energy amount fuel).result
        ≡ some (fulfilled a)
      → (module_ref : Text) × (request : Request P) × (info.module_ref ≡ some module_ref)
        × ((init_contract_client provider info account params energy amount fuel).sent
            ≡ request ∷ [])
        × IsInit info module_ref account params energy amount request
        × IsFinalized provider request (account_transaction (init_contract a))
  unfolding init_contract_client
  init_contract_client_sound info account params energy amount fuel a h =
      init_module_sound info account params energy amount fuel info.module_ref a h

  -- An update succeeds when the SDK takes its amount, the wallet accepts its request and the node
  -- reports it as pending n times and then as finalized with an outcome that did not fail, for any
  -- fuel above n.
  pub update_contract_completes :
      (info : ContractInfo) (params : P) (account : Text) (address : ContractAddress)
      (method : Text) (energy amount : ℤ) (fuel n : ℕ) (hash : Text) (s : Summary)
      → provider.ccd_error (amount *ℤ pos 1000000) ≡ none
      → provider.send
          (update_request info params account address method energy (amount *ℤ pos 1000000))
        ≡ fulfilled hash
      → ((i : ℕ) → i < n → IsPending (provider.status hash i))
      → provider.status hash n ≡ fulfilled (finalized (some s))
      → IsExecuted s
      → n < fuel
      → (update_contract provider info params account address method energy amount fuel).result
        ≡ some (fulfilled s)
  unfolding update_contract wait_and_throw_error send_amount
  update_contract_completes info params account address method energy amount fuel n hash s fine
        accepted pending reported ran enough =
      rw (to_ccd-none provider.ccd_error amount fine) (
        rw (accepted, follow)
          (rw
            (wait_first (provider.status hash) (fulfilled (some s)) n fuel enough pending
              (inl (some s, reported, refl)))
            (ap some (ensure_valid_outcome_complete s ran))))
