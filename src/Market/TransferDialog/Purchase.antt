-- ===== src/Market/TransferDialog/Purchase.antt =====
-- Which purchases are started, and what they cost.
use mathlib.Core.Path.{subst}
use concordium_dapp_examples.Common.{
  ℕ, ◌≡◌, refl, ap, ◌↔◌, inl, inr, true, false, [], ◌++◌, Text, Option, none, some, arith, codes,
  Bool-cases,
}
use concordium_dapp_examples.Common.Int.{ℤ, pos, negsuc, ◌*ℤ◌, *ℤ_comm, ◌≤ℤ◌, ◌<ℤ◌}
use concordium_dapp_examples.Js.{bigint}
use concordium_dapp_examples.Client.{
  ContractAddress, ContractInfo, Provider, Request, update_payload, update_request, update_contract,
}
use concordium_dapp_examples.Client.Amounts.{Asked, update_contract_cases}
use concordium_dapp_examples.Market.MarketClient.{
  TokenListItem, MarketParams, transfer_params, transfer_json,
}
use concordium_dapp_examples.Market.TransferDialog.{
  State, started, or_zero, check_quantity, is_invalid, is_valid, submit, purchase, on_bought,
  on_failed, quantity_changed, on_change, buy_disabled,
}

abbrev pub IsOffered : TokenListItem → ℤ → Type 0
IsOffered item q = (pos 0 <ℤ q) × (q ≤ℤ item.quantity)

is_invalid_iff : (item : TokenListItem) (q : ℤ) → (is_invalid item q ≡ false) ↔ IsOffered item q
unfolding is_invalid
is_invalid_iff item (pos n) = (λ h. (ground arith, ground arith), λ h. ground arith)
is_invalid_iff item (negsuc n) = (λ h. absurd (ground arith), λ h. absurd (omega arith))

is_valid_iff : (item : TokenListItem) (q : ℤ) → (is_valid item q ≡ true) ↔ IsOffered item q
unfolding is_valid
is_valid_iff item (pos n) = (λ h. (ground arith, ground arith), λ h. ground arith)
is_valid_iff item (negsuc n) = (λ h. absurd (ground arith), λ h. absurd (omega arith))

abbrev pub buying : State → State
buying s = record s { is_bought = some false; is_being_bought = some true; error = some [] }

check_quantity_sound :
    (item : TokenListItem) (s : State) (o : Option ℤ) (q : ℤ) (t : State)
    → check_quantity item s o ≡ started t q
    → (o ≡ some q) × IsOffered item q × (t ≡ buying s)
unfolding check_quantity
check_quantity_sound item s none q t h = absurd (cc)
check_quantity_sound item s (some p) q t h = elim (Bool-cases (is_invalid item p)) [
  | inl e ↦ absurd (cc (rw e at h))
  | inr e ↦
      let same : p ≡ q = cc (rw e at h) in
      (ap some same, (is_invalid_iff item q).0 (rw (← same) e), cc (rw e at h))
]

-- A purchase of q tokens is started exactly when the text of the quantity field is a number q that
-- is at least 1 and at most the listed quantity.
pub submit-started_iff :
    (item : TokenListItem) (field : Option Text) (s : State) (q : ℤ)
    → ((t : State) × (submit item field s ≡ started t q))
      ↔ ((bigint (or_zero field) ≡ some q) × IsOffered item q)
unfolding submit
submit-started_iff item field s q = (
  λ h.
      let (read, offered, same) = check_quantity_sound item s (bigint (or_zero field)) q h.0 h.1 in
      (read, offered),
  λ h. (buying s, rw (h.0, check_quantity) (rw ((is_invalid_iff item q).1 h.1))),
)

-- When an offered quantity is bought, the total that the dialog shows for it, in micro CCD, is
-- what the wallet is asked, once, to pay to the marketplace, unless the SDK does not take this
-- amount: then nothing is sent and the purchase is rejected with what the SDK threw.
pub purchase-total_amount :
    (provider : Provider MarketParams) (account : Text) (market : ContractAddress)
    (item : TokenListItem) (text : Text) (q energy : ℤ) (info : ContractInfo) (fuel : ℕ) (s : State)
    → bigint text ≡ some q
    → IsOffered item q
    → (shown : State) × (total : ℤ) × (request : Request MarketParams) × (on_change item text s
        ≡ some shown)
      × (shown.total_amount ≡ some total)
      × (request.payload
          ≡ update_payload energy market
              (total *ℤ pos 1000000)
              (info.contract_name ++ (codes "." ++ codes "transfer")))
      × Asked provider
          (total *ℤ pos 1000000)
          request
          (purchase provider account market item q info energy fuel)
unfolding purchase on_change
purchase-total_amount provider account market item text q energy info fuel s h o =
    let params : MarketParams =
      transfer_params (transfer_json account item.contract item.token_id item.owner q) in
    (
      quantity_changed item q s,
      q *ℤ item.price,
      update_request info params account market (codes "transfer") energy
          ((q *ℤ item.price) *ℤ pos 1000000),
      rw (h, on_change),
      rw ((is_valid_iff item q).1 o, quantity_changed),
      refl,
      subst
          (λ a.
            Asked provider (a *ℤ pos 1000000)
              (update_request info params account market (codes "transfer") energy
                (a *ℤ pos 1000000))
              (update_contract provider info params account market (codes "transfer") energy
                (item.price *ℤ q) fuel))
          (*ℤ_comm item.price q)
          (update_contract_cases provider info params account market (codes "transfer") energy
            (item.price *ℤ q) fuel),
    )

-- After a purchase is started, and after it succeeded, the button is disabled; after a failure it
-- is enabled, and the message is shown.
pub buy_disabled_phases :
    (item : TokenListItem) (field : Option Text) (s t : State) (q : ℤ) (message : Text)
    → submit item field s ≡ started t q
    → (buy_disabled t ≡ true)
      × (buy_disabled (on_bought s).0 ≡ true)
      × (buy_disabled (on_failed s message).0 ≡ false)
      × ((on_failed s message).0.error ≡ some message)
unfolding submit buy_disabled on_bought on_failed
buy_disabled_phases item field s t q message h =
    let (read, offered, same) = check_quantity_sound item s (bigint (or_zero field)) q t h in
    (rw same, refl, refl, refl)
