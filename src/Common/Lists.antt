-- ===== src/Common/Lists.antt =====
-- Lists measured and indexed by native numbers, under the library's names.
use Prim.Native.Nat.{ℕ, zero, suc, ◌+◌, ◌≤◌}
use mathlib.Core.Path.{◌≡◌, sym, subst}
use mathlib.Core.Bool.{Bool, true, false}
use mathlib.Core.List.{List, [], ◌∷◌, ◌++◌, Memᴰ}
use mathlib.Core.Option.{Option, none, some}
use mathlib.Core.Logic.{inl, inr}
use concordium_dapp_examples.Common.Tests.{Bool-cases}
use native.Mathlib.Omega.{arith}

module _ {ℓ} {A : Type ℓ} where
  abbrev pub length : List A → ℕ
  length [] = 0
  length (x ∷ xs) = suc (length xs)

  abbrev pub get_elem? : List A → ℕ → Option A
  get_elem? [] i = none
  get_elem? (x ∷ xs) zero = some x
  get_elem? (x ∷ xs) (suc i) = get_elem? xs i

  -- A write out of bounds changes nothing.
  abbrev pub set : List A → ℕ → A → List A
  set [] i v = []
  set (x ∷ xs) zero v = v ∷ xs
  set (x ∷ xs) (suc i) v = x ∷ set xs i v

  -- The number of entries that pass a test.
  abbrev pub count_if : (A → Bool) → List A → ℕ
  count_if p [] = 0
  count_if p (x ∷ xs) = elim (p x) [ true ↦ suc (count_if p xs) | false ↦ count_if p xs ]

  pub length-append : (xs ys : List A) → length (xs ++ ys) ≡ length xs + length ys
  length-append [] ys = omega arith
  length-append (x ∷ xs) ys = omega (arith, length-append xs ys)

  pub count_if-le-length : (p : A → Bool) (xs : List A) → count_if p xs ≤ length xs
  count_if-le-length p [] = omega arith
  count_if-le-length p (x ∷ xs) = ground (arith, count_if-le-length p xs)

-- Every entry has the property.
abbrev pub All {ℓ κ} : {A : Type ℓ} → (A → Type κ) → List A → Type κ
All P [] = Unit
All P (x ∷ xs) = P x × All P xs

pub All-append {ℓ κ} :
    {A : Type ℓ} (P : A → Type κ) (xs ys : List A) → All P xs → All P ys → All P (xs ++ ys)
All-append P [] ys hx hy = hy
All-append P (x ∷ xs) ys hx hy = (hx.0, All-append P xs ys hx.1 hy)

pub All-imp {ℓ κ} :
    {A : Type ℓ} (P Q : A → Type κ) (xs : List A) → ((x : A) → P x → Q x) → All P xs → All Q xs
All-imp P Q [] f h = tt
All-imp P Q (x ∷ xs) f h = (f x h.0, All-imp P Q xs f h.1)

pub count_if-All {ℓ} :
    {A : Type ℓ} (p : A → Bool) (xs : List A) → count_if p xs ≡ length xs → All (λ x. p x ≡ true) xs
count_if-All p [] h = tt
count_if-All p (x ∷ xs) h = elim (Bool-cases (p x)) [
  | inl e ↦ (e, count_if-All p xs (ground arith))
  | inr e ↦ absurd (ground (arith, count_if-le-length p xs))
]

pub All-mem {ℓ κ} : {A : Type ℓ} (P : A → Type κ) (x : A) (xs : List A) → Memᴰ x xs → All P xs → P x
All-mem P x [] m h = elim m [ ]
All-mem P x (y ∷ xs) (Memᴰ.head e) h = subst P (sym e) h.0
All-mem P x (y ∷ xs) (Memᴰ.tail m) h = All-mem P x xs m h.1

-- Of a list of one entry only that entry can be taken.
pub only_one :
    {A : Type 0} (a b : A) (xs ys : List A) → (a ∷ []) ≡ xs ++ (b ∷ ys) → (a ≡ b) × (xs ++ ys ≡ [])
only_one a b [] [] h = ground arith
only_one a b [] (y ∷ ys) h = ground arith
only_one a b (x ∷ []) ys h = ground arith
only_one a b (x ∷ y ∷ xs) ys h = ground arith

pub not_none : {A : Type 0} (b : A) (xs ys : List A) → [] ≡ xs ++ (b ∷ ys) → ⊥
not_none b [] ys h = cc
not_none b (x ∷ xs) ys h = cc
