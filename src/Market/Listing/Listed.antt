-- ===== src/Market/Listing/Listed.antt =====
-- When the list of the tokens on sale is available, and what it is.
use mathlib.Core.Path.{subst}
use concordium_dapp_examples.Common.{
  ◌≡◌, refl, ◌↔◌, false, List, [], ◌∷◌, ◌++◌, Text, codes, Option, none, some, Settled, fulfilled,
  is_empty, >>=-eq-fulfilled, Bool-cases, inl, inr,
}
use concordium_dapp_examples.Common.Int.{ℤ}
use concordium_dapp_examples.Js.{bigint}
use concordium_dapp_examples.Client.{ContractAddress, ContractInfo}
use concordium_dapp_examples.Market.MarketClient.{TokenListItem}
use concordium_dapp_examples.Market.Listing.{
  Invocation, InvokeResult, failure, success, check_result, invocation, JsonNumber, integer, digits,
  fraction, TokenListItemJson, Errors, read_or_throw, to_bigint, to_item, to_items, first_list,
  list,
}

check_result_sound :
    (method_name : Text) (contract : ContractAddress) (r : Option InvokeResult) (value : Text)
    → check_result method_name contract r ≡ fulfilled value
    → (r ≡ some (success (some value))) × (is_empty value ≡ false)
unfolding check_result
check_result_sound method_name contract none value h = absurd (cc)
check_result_sound method_name contract (some failure) value h = absurd (cc)
check_result_sound method_name contract (some (success none)) value h = absurd (cc)
check_result_sound method_name contract (some (success (some v))) value h =
    elim (Bool-cases (is_empty v)) [
      | inl e ↦ absurd (cc (rw e at h))
      | inr e ↦ let same : v ≡ value = cc (rw e at h) in (cc (same), rw (← same) e)
    ]

-- The integer that a price or a quantity stands for.
abbrev pub IntegerOf : JsonNumber → ℤ → Type 0
IntegerOf (integer n) m = n ≡ m
IntegerOf (digits t) m = bigint t ≡ some m
IntegerOf fraction m = ⊥

-- A token on sale as the contract lists it, field by field.
pub record IsItem (t : TokenListItemJson) (item : TokenListItem) : Type 0 where
  pub same_id : item.token_id ≡ t.token_id
  pub same_contract : item.contract ≡ t.contract
  pub price_of : IntegerOf t.price item.price
  pub same_owner : item.owner ≡ t.owner
  pub same_royalty : item.royalty ≡ t.royalty
  pub same_primary_owner : item.primary_owner ≡ t.primary_owner
  pub quantity_of : IntegerOf t.quantity item.quantity

abbrev pub AreItems : List TokenListItemJson → List TokenListItem → Type 0
AreItems [] [] = Unit {0}
AreItems [] (item ∷ tokens) = ⊥
AreItems (t ∷ items) [] = ⊥
AreItems (t ∷ items) (item ∷ tokens) = IsItem t item × AreItems items tokens

abbrev made_item : TokenListItemJson → ℤ → ℤ → TokenListItem
made_item t price quantity = record {
  token_id = t.token_id;
  contract = t.contract;
  price = price;
  owner = t.owner;
  royalty = t.royalty;
  primary_owner = t.primary_owner;
  quantity = quantity;
}

module _ (errors : Errors) where
  read_or_throw-fulfilled :
      (t : Text) (o : Option ℤ) (m : ℤ) → (read_or_throw errors t o ≡ fulfilled m) ↔ (o ≡ some m)
  read_or_throw-fulfilled t none m = (λ h. cc, λ h. cc)
  read_or_throw-fulfilled t (some n) m = (λ h. cc, λ h. cc)

  to_bigint_iff : (j : JsonNumber) (m : ℤ) → (to_bigint errors j ≡ fulfilled m) ↔ IntegerOf j m
  unfolding to_bigint
  to_bigint_iff (integer n) m = (λ h. cc, λ h. cc)
  to_bigint_iff (digits t) m = read_or_throw-fulfilled t (bigint t) m
  to_bigint_iff fraction m = (λ h. absurd (cc), λ h. absurd h)

  to_item_sound :
      (t : TokenListItemJson) (item : TokenListItem)
      → to_item errors t ≡ fulfilled item
      → IsItem t item
  unfolding to_item
  to_item_sound t item h =
      let (price, price_read, then_quantity) = >>=-eq-fulfilled (to_bigint errors t.price) _ h in
      let (quantity, quantity_read, made) =
        >>=-eq-fulfilled (to_bigint errors t.quantity) _ then_quantity in
      let same : made_item t price quantity ≡ item = cc in
      subst (IsItem t) same (record {
        same_id = refl;
        same_contract = refl;
        price_of = (to_bigint_iff t.price price).0 price_read;
        same_owner = refl;
        same_royalty = refl;
        same_primary_owner = refl;
        quantity_of = (to_bigint_iff t.quantity quantity).0 quantity_read;
      })

  to_item_complete :
      (t : TokenListItemJson) (item : TokenListItem)
      → IsItem t item
      → to_item errors t ≡ fulfilled item
  unfolding to_item
  to_item_complete t item i = rw ((to_bigint_iff t.price item.price).1 i.price_of) (
      rw ((to_bigint_iff t.quantity item.quantity).1 i.quantity_of)
        (cc (i.same_id, i.same_contract, i.same_owner, i.same_royalty, i.same_primary_owner)))

  to_items_sound :
      (items : List TokenListItemJson) (tokens : List TokenListItem)
      → to_items errors items ≡ fulfilled tokens
      → AreItems items tokens
  unfolding to_items
  to_items_sound [] [] h = tt
  to_items_sound [] (item ∷ tokens) h = absurd (cc)
  to_items_sound (t ∷ items) tokens h =
      let (item, first, more) = >>=-eq-fulfilled (to_item errors t) _ h in
      let (rest, others, made) = >>=-eq-fulfilled (to_items errors items) _ more in
      let same : (item ∷ rest) ≡ tokens = cc in
      subst (AreItems (t ∷ items)) same
        (to_item_sound t item first, to_items_sound items rest others)

  to_items_complete :
      (items : List TokenListItemJson) (tokens : List TokenListItem)
      → AreItems items tokens
      → to_items errors items ≡ fulfilled tokens
  unfolding to_items
  to_items_complete [] [] h = refl
  to_items_complete [] (item ∷ tokens) h = absurd h
  to_items_complete (t ∷ items) [] h = absurd h
  to_items_complete (t ∷ items) (item ∷ tokens) (i, h) =
      rw (to_item_complete t item i) (rw (to_items_complete items tokens h) refl)

  first_list_sound :
      (lists : List (List TokenListItemJson)) (tokens : List TokenListItem)
      → first_list errors lists ≡ fulfilled tokens
      → (items : List TokenListItemJson) × (rest : List (List TokenListItemJson)) × (lists
          ≡ items ∷ rest)
        × AreItems items tokens
  unfolding first_list
  first_list_sound [] tokens h = absurd (cc)
  first_list_sound (items ∷ rest) tokens h = (items, rest, refl, to_items_sound items tokens h)

  -- The list of tokens on sale is available exactly when the node answers the call of `list` of
  -- the market's contract, made without parameters and without an invoker, with a return value
  -- that is not empty, decodes to at least one list, and has integers for the prices and
  -- quantities of the first list; and it then has the entries of this first list in their order,
  -- field by field, with these integers.
  pub list_iff :
      {P : Type 0} (node : Invocation P → Settled (Option InvokeResult))
      (decode : Text → Settled (List (List TokenListItemJson))) (market : ContractAddress)
      (info : ContractInfo) (tokens : List TokenListItem)
      → (list errors node decode market info ≡ fulfilled tokens) ↔ (
          (value : Text) × (items : List TokenListItemJson) × (rest : List (List TokenListItemJson))
          × (node (record {
            parameter = none;
            contract = market;
            invoker = none;
            method = info.contract_name ++ codes ".list";
          })
              ≡ fulfilled (some (success (some value))))
          × (is_empty value ≡ false)
          × (decode value ≡ fulfilled (items ∷ rest))
          × AreItems items tokens)
  unfolding list first_list
  list_iff node decode market info tokens = (
    λ h.
        let (value, invoked, decoded) = >>=-eq-fulfilled _ _ h in
        let (r, asked, checked) =
          >>=-eq-fulfilled (node (invocation info market (codes "list") none none))
            (check_result (codes "list") market) invoked in
        let (good, full) = check_result_sound (codes "list") market r value checked in
        let (lists, read, first) = >>=-eq-fulfilled (decode value) (first_list errors) decoded in
        let (items, rest, same, listed) = first_list_sound lists tokens first in
        (value, items, rest, cc (asked, good), full, cc (read, same), listed),
    λ (value, items, rest, asked, full, read, listed).
        rw (asked, check_result, full) (rw (read) (to_items_complete items tokens listed)),
  )
