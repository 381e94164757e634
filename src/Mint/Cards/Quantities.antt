-- ===== src/Mint/Cards/Quantities.antt =====
-- Which token ids and quantities the cards accept.
use concordium_dapp_examples.Common.{
  ◌≡◌, ◌≢◌, arith, refl, ◌↔◌, Bool, true, false, [], ◌∷◌, Text, Option, none, some, is_empty, ◌||◌,
  if◌then◌else◌, zero, suc,
}
use concordium_dapp_examples.Common.Int.{ℤ, pos, negsuc}
use concordium_dapp_examples.Js.{parse_int}
use concordium_dapp_examples.Mint.Cards.{field_text, is_falsy, QuantityState, submit_quantity}

is_falsy_iff : (o : Option ℤ) → (is_falsy o ≡ false) ↔ ((n : ℤ) × (o ≡ some n) × (n ≢ pos 0))
is_falsy_iff none = (λ h. absurd (cc), λ h. absurd (cc))
is_falsy_iff (some (pos zero)) = (λ h. absurd (cc), λ (m, p, q). absurd (q (cc)))
is_falsy_iff (some (pos (suc n))) = (λ h. (pos (suc n), refl, λ e. cc), λ h. ground arith)
is_falsy_iff (some (negsuc n)) = (λ h. (negsuc n, refl, λ e. cc), λ h. refl)

parse_int_nil : parse_int [] ≡ none
unfolding parse_int
parse_int_nil = refl

-- What the guard of `submit` accepts is not empty.
guard_iff :
    (s : Text) → ((is_empty s || is_falsy (parse_int s)) ≡ false) ↔ (is_falsy (parse_int s) ≡ false)
unfolding parse_int
guard_iff [] = (λ h. absurd (cc), λ h. absurd (cc))
guard_iff (c ∷ s) = (λ h. h, λ h. h)

handed_on_iff :
    {A B : Type 0} (b : Bool) (x y : A) (v : B)
    → ((if◌then◌else◌ {A = A × Option B} b (x, none) (y, some v)).1 ≡ some v) ↔ (b ≡ false)
handed_on_iff true x y v = (λ h. absurd (cc), λ h. absurd (cc))
handed_on_iff false x y v = (λ h. refl, λ h. refl)

-- A quantity is accepted exactly when parseInt reads a number other than 0 from the text; what is
-- handed on is the text itself.
pub submit_quantity_iff :
    (token_id : Text) (field : Option Text) (s : QuantityState)
    → ((submit_quantity token_id field s).1 ≡ some (token_id, field_text field))
      ↔ ((n : ℤ) × (parse_int (field_text field) ≡ some n) × (n ≢ pos 0))
unfolding submit_quantity
submit_quantity_iff token_id field s =
    let q = field_text field in
    let handed = handed_on_iff (is_empty q || is_falsy (parse_int q)) _ _ _ in
    let guard = guard_iff q in
    let parsed = is_falsy_iff (parse_int q) in
    (λ h. parsed.0 (guard.0 (handed.0 h)), λ h. handed.1 (guard.1 (parsed.1 h)))
