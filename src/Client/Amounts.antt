-- ===== src/Client/Amounts.antt =====
-- Which amounts reach the wallet: `toCcd` and the request that needs its result.
use concordium_dapp_examples.Common.{
  ℕ, ◌≡◌, refl, inl, inr, ◌⊎◌, Option, none, some, [], ◌∷◌, Text, Settled, fulfilled, rejected,
}
use concordium_dapp_examples.Common.Int.{ℤ, pos, ◌*ℤ◌}
use concordium_dapp_examples.Client.{
  ccd_or, to_ccd, send_amount, update_request, Summary, ContractAddress, Request, Provider,
  ContractInfo, Run, update_contract,
}

module _ (ccd_error : ℤ → Option Text) where
  -- An amount that the SDK takes is the one in micro CCD.
  pub to_ccd-fulfilled :
      (amount c : ℤ)
      → to_ccd ccd_error amount ≡ fulfilled c
      → (ccd_error (amount *ℤ pos 1000000) ≡ none) × (amount *ℤ pos 1000000 ≡ c)
  unfolding to_ccd
  to_ccd-fulfilled amount c h = held (ccd_error (amount *ℤ pos 1000000)) refl h
    where
      held :
          (e : Option Text)
          → ccd_error (amount *ℤ pos 1000000) ≡ e
          → ccd_or e (amount *ℤ pos 1000000) ≡ fulfilled c
          → (ccd_error (amount *ℤ pos 1000000) ≡ none) × (amount *ℤ pos 1000000 ≡ c)
      held none p k = (p, cc)
      held (some e) p k = cc

  pub to_ccd-none :
      (amount : ℤ)
      → ccd_error (amount *ℤ pos 1000000) ≡ none
      → to_ccd ccd_error amount ≡ fulfilled (amount *ℤ pos 1000000)
  unfolding to_ccd
  to_ccd-none amount h = rw h refl

  to_ccd-some :
      (amount : ℤ) (e : Text)
      → ccd_error (amount *ℤ pos 1000000) ≡ some e
      → to_ccd ccd_error amount ≡ rejected e
  unfolding to_ccd
  to_ccd-some amount e h = rw h refl

module _ {P : Type 0} where
  -- A call that succeeds had its amount taken and made its request.
  pub send_amount-fulfilled :
      {A : Type 0} (m : Settled ℤ) (request : ℤ → Request P)
      (answer : Request P → Option (Settled A)) (a : A)
      → (send_amount m request answer).result ≡ some (fulfilled a)
      → (c : ℤ) × (m ≡ fulfilled c)
        × ((send_amount m request answer).sent ≡ request c ∷ [])
        × (answer (request c) ≡ some (fulfilled a))
  unfolding send_amount
  send_amount-fulfilled (fulfilled c) request answer a h = (c, refl, refl, h)
  send_amount-fulfilled (rejected e) request answer a h = absurd (cc)

module _ {P : Type 0} (provider : Provider P) where
  -- Either the SDK takes the amount of an update and the wallet is asked once, or it throws, the
  -- wallet is not asked and the update is rejected with what was thrown.
  abbrev pub Asked : ℤ → Request P → Run P Summary → Type 0
  Asked micro_ccd request run =
      ((provider.ccd_error micro_ccd ≡ none) × (run.sent ≡ request ∷ []))
      ⊎ ((e : Text) × (provider.ccd_error micro_ccd ≡ some e)
          × (run.sent ≡ [])
          × (run.result ≡ some (rejected e)))

  pub update_contract_cases :
      (info : ContractInfo) (params : P) (account : Text) (address : ContractAddress)
      (method : Text) (energy amount : ℤ) (fuel : ℕ)
      → Asked
          (amount *ℤ pos 1000000)
          (update_request info params account address method energy (amount *ℤ pos 1000000))
          (update_contract provider info params account address method energy amount fuel)
  unfolding update_contract send_amount
  update_contract_cases info params account address method energy amount fuel =
      elim_error (provider.ccd_error (amount *ℤ pos 1000000)) refl
    where
      elim_error :
          (o : Option Text)
          → provider.ccd_error (amount *ℤ pos 1000000) ≡ o
          → Asked
              (amount *ℤ pos 1000000)
              (update_request info params account address method energy (amount *ℤ pos 1000000))
              (update_contract provider info params account address method energy amount fuel)
      elim_error none p = inl (p, rw (to_ccd-none provider.ccd_error amount p) refl)
      elim_error (some e) p = inr (
        e,
        p,
        rw (to_ccd-some provider.ccd_error amount e p) refl,
        rw (to_ccd-some provider.ccd_error amount e p) refl,
      )
