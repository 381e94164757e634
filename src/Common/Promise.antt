-- ===== src/Common/Promise.antt =====
-- A settled promise: the value it is fulfilled with, or the `message` of the error it is rejected
-- with. `await` in an async function is the bind.
use mathlib.Core.Path.{◌≡◌, refl}
use mathlib.Core.Option.{Option, none, some}
use concordium_dapp_examples.Common.Texts.{Text}

pub data Settled {ℓ} (A : Type ℓ) : Type ℓ where
  fulfilled : A → Settled A
  rejected : Text → Settled A

infixl 5 ◌>>=◌
abbrev pub ◌>>=◌ {ℓ κ} : {A : Type ℓ} {B : Type κ} → Settled A → (A → Settled B) → Settled B
fulfilled a >>= f = f a
rejected e >>= f = rejected e

pub >>=-eq-fulfilled {ℓ κ} :
    {A : Type ℓ} {B : Type κ} (m : Settled A) (f : A → Settled B) {b : B}
    → (m >>= f) ≡ fulfilled b
    → (a : A) × (m ≡ fulfilled a) × (f a ≡ fulfilled b)
>>=-eq-fulfilled (fulfilled a) f h = (a, refl, h)
>>=-eq-fulfilled (rejected e) f h = cc

-- `promise.then(f)` of a promise that may still be waiting (`none`).
abbrev pub then_do {ℓ κ} :
    {A : Type ℓ} {B : Type κ} → Option (Settled A) → (A → Settled B) → Option (Settled B)
then_do none f = none
then_do (some m) f = some (m >>= f)

pub then_do-eq-fulfilled {ℓ κ} :
    {A : Type ℓ} {B : Type κ} (m : Option (Settled A)) (f : A → Settled B) {b : B}
    → then_do m f ≡ some (fulfilled b)
    → (a : A) × (m ≡ some (fulfilled a)) × (f a ≡ fulfilled b)
then_do-eq-fulfilled none f h = cc
then_do-eq-fulfilled (some (fulfilled a)) f h = (a, refl, cc)
then_do-eq-fulfilled (some (rejected e)) f h = cc
