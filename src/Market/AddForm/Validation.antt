-- ===== src/Market/AddForm/Validation.antt =====
-- Which listings are sent to the marketplace.
use mathlib.Core.Path.{subst}
use concordium_dapp_examples.Common.{
  ◌≡◌, refl, sym, ◌⊎◌, inl, inr, true, false, [], ◌∷◌, Text, codes, Option, none, some, arith,
  is_empty,
}
use concordium_dapp_examples.Common.Int.{ℤ, pos, ◌*ℤ◌, ◌≤ℤ◌, ◌<ℤ◌}
use concordium_dapp_examples.Js.{bigint, parse_int, bigint_to_string}
use concordium_dapp_examples.Market.MarketClient.{AddParams, to_param_contract_address}
use concordium_dapp_examples.Market.AddForm.{
  State, Form, Props, valid, or_text, check_price, price_test, quantity_test, is_negative,
  check_royalty, check_quantity, basis_points, started, add_json, submit, after_price,
}

-- The texts are a price above 0, a royalty that is not negative (or that no number can be read
-- from), and a quantity of at least 1 and at most the balance.
pub record IsListing (props : Props) (price royalty quantity : Text) : Type 0 where
  pub price_of : ℤ
  pub price_read : bigint price ≡ some price_of
  pub price_positive : pos 0 <ℤ price_of
  pub royalty_given : is_empty royalty ≡ false
  pub royalty_not_negative : is_negative (parse_int royalty) ≡ false
  pub quantity_of : ℤ
  pub quantity_read : bigint quantity ≡ some quantity_of
  pub quantity_positive : pos 0 <ℤ quantity_of
  pub quantity_held : quantity_of ≤ℤ props.max_quantity

price_test_valid : (o : Option ℤ) → price_test o ≡ valid → (p : ℤ) × (o ≡ some p) × (pos 0 <ℤ p)
price_test_valid none h = absurd (cc)
price_test_valid (some p) h = (p, refl, ground arith)

check_price_valid :
    (price : Text) → check_price price ≡ valid → (p : ℤ) × (bigint price ≡ some p) × (pos 0 <ℤ p)
unfolding check_price
check_price_valid price h = price_test_valid (bigint price) (ground arith)

quantity_test_valid :
    (m : ℤ) (o : Option ℤ)
    → quantity_test m o ≡ valid
    → (q : ℤ) × (o ≡ some q) × (pos 0 <ℤ q) × (q ≤ℤ m)
quantity_test_valid m none h = absurd (cc)
quantity_test_valid m (some q) h = (q, refl, ground arith, ground arith)

check_quantity_valid :
    (m : ℤ) (quantity : Text)
    → check_quantity m quantity ≡ valid
    → (q : ℤ) × (bigint quantity ≡ some q) × (pos 0 <ℤ q) × (q ≤ℤ m)
unfolding check_quantity
check_quantity_valid m quantity h = quantity_test_valid m (bigint quantity) (ground arith)

check_royalty_valid :
    (royalty : Text)
    → check_royalty royalty ≡ valid
    → (is_empty royalty ≡ false) × (is_negative (parse_int royalty) ≡ false)
unfolding check_royalty
check_royalty_valid royalty h = (ground arith, ground arith)

after_price_sound :
    (props : Props) (price royalty quantity : Text) (s t : State) (params : AddParams)
    → after_price props price royalty quantity s (check_price price) ≡ started t params
    → (params ≡ add_json props price royalty quantity) × IsListing props price royalty quantity
unfolding after_price
after_price_sound props price royalty quantity s t params h =
    let price_ok : check_price price ≡ valid = ground arith in
    let royalty_ok : check_royalty royalty ≡ valid = ground arith in
    let quantity_ok : check_quantity props.max_quantity quantity ≡ valid = ground arith in
    let (p, pr, pp) = check_price_valid price price_ok in
    let (rg, rn) = check_royalty_valid royalty royalty_ok in
    let (q, qr, qp, qh) = check_quantity_valid props.max_quantity quantity quantity_ok in
    (
      ground arith,
      record {
        price_of = p;
        price_read = pr;
        price_positive = pp;
        royalty_given = rg;
        royalty_not_negative = rn;
        quantity_of = q;
        quantity_read = qr;
        quantity_positive = qp;
        quantity_held = qh;
      },
    )

-- The parameters of a listing, field by field. A royalty is sent in hundredths of a per cent; it is
-- `none` (NaN) if no number can be read from its text.
pub record Carries (props : Props) (price royalty quantity : Text) (params : AddParams)
    : Type 0 where
  pub same_token : params.token_id ≡ props.token_id
  pub same_price : params.price ≡ price
  pub same_quantity : params.quantity ≡ quantity
  pub hundredfold_royalty :
      ((r : ℤ) × (parse_int royalty ≡ some r) × (params.royalty ≡ some (r *ℤ pos 100)))
      ⊎ ((parse_int royalty ≡ none) × (params.royalty ≡ none))
  pub same_index :
      params.cis_contract_address.index
      ≡ parse_int (bigint_to_string props.nft_contract_address.index)
  pub same_subindex :
      params.cis_contract_address.subindex
      ≡ parse_int (bigint_to_string props.nft_contract_address.subindex)

basis_points_cases :
    (o : Option ℤ)
    → ((r : ℤ) × (o ≡ some r) × (basis_points o ≡ some (r *ℤ pos 100)))
      ⊎ ((o ≡ none) × (basis_points o ≡ none))
basis_points_cases none = inr (refl, refl)
basis_points_cases (some r) = inl (r, refl, refl)

add_json-Carries :
    (props : Props) (price royalty quantity : Text)
    → Carries props price royalty quantity (add_json props price royalty quantity)
unfolding to_param_contract_address
add_json-Carries props price royalty quantity = record {
  same_token = refl;
  same_price = refl;
  same_quantity = refl;
  hundredfold_royalty = basis_points_cases (parse_int royalty);
  same_index = refl;
  same_subindex = refl;
}

-- If the form sends a listing, its parameters are the token and the collection of the form, the
-- texts of its price and of its quantity, and a hundred times the number read from its royalty, or
-- NaN if there is none; and the texts are a price above 0, a royalty that is not negative or not a
-- number, and a quantity of at least 1 and at most the balance.
pub submit-started :
    (props : Props) (form : Form) (s t : State) (params : AddParams)
    → submit props form s ≡ started t params
    → let price = or_text [] form.price in
      let royalty = or_text (codes "0") form.royalty in
      let quantity = or_text (codes "0") form.quantity in
      Carries props price royalty quantity params × IsListing props price royalty quantity
unfolding submit
submit-started props form s t params h =
    let price = or_text [] form.price in
    let royalty = or_text (codes "0") form.royalty in
    let quantity = or_text (codes "0") form.quantity in
    let (same, listing) = after_price_sound props price royalty quantity s t params h in
    (
      subst (Carries props price royalty quantity) (sym same)
          (add_json-Carries props price royalty quantity),
      listing,
    )

is_empty_of_positive : (t : Text) (p : ℤ) → bigint t ≡ some p → pos 0 <ℤ p → is_empty t ≡ false
is_empty_of_positive [] p h lt =
    let zero_read : some (pos 0) ≡ some p = unfold bigint in h in absurd (ground arith)
is_empty_of_positive (c ∷ t) p h lt = refl

price_of_positive : (p : ℤ) → pos 0 <ℤ p → price_test (some p) ≡ valid
price_of_positive p h = ground arith

quantity_of_held : (m q : ℤ) → pos 0 <ℤ q → q ≤ℤ m → quantity_test m (some q) ≡ valid
quantity_of_held m q h k = ground arith

-- Every listing whose texts are a price above 0, a given royalty that is not negative or not a
-- number, and a quantity of at least 1 and at most the balance is sent.
pub submit_of_IsListing :
    (props : Props) (form : Form) (s : State)
    → IsListing props
        (or_text [] form.price)
        (or_text (codes "0") form.royalty)
        (or_text (codes "0") form.quantity)
    → submit props form s
      ≡ started
          (record s { adding = true; error = [] })
          (add_json props
            (or_text [] form.price)
            (or_text (codes "0") form.royalty)
            (or_text (codes "0") form.quantity))
unfolding submit check_price check_royalty check_quantity
submit_of_IsListing props form s h =
    let price = or_text [] form.price in
    let quantity = or_text (codes "0") form.quantity in
    rw (is_empty_of_positive price h.price_of h.price_read h.price_positive, h.price_read)
      (rw (price_of_positive h.price_of h.price_positive) (
        rw (h.royalty_given, h.royalty_not_negative)
          (rw
            (
              is_empty_of_positive quantity h.quantity_of h.quantity_read h.quantity_positive,
              h.quantity_read,
            )
            (rw (
              quantity_of_held props.max_quantity h.quantity_of h.quantity_positive
                h.quantity_held)))))
