-- ===== src/Js/Hex.antt =====
-- Printing in base 16 (`n.toString(16)`): reading it back, and its length.
use native.Mathlib.Nat.{pow-suc}
use concordium_dapp_examples.Common.{
  ℕ, zero, suc, ◌+◌, ◌*◌, ◌/◌, ◌%◌, ◌^◌, ◌≤◌, ◌<◌, ◌≡◌, refl, ◌∙◌, ap, [], ◌∷◌, some, Text, ◌==◌,
  Bool-cases, inl, inr, arith, length,
}
use concordium_dapp_examples.Js.{digit_in, digit_char, all_digits, print_digits, to_string}

pub digit_in-digit_char : (d : ℕ) → d < 16 → digit_in 16 (digit_char d) ≡ some d
unfolding digit_in
digit_in-digit_char d h = ground arith

all_digits-digit_char :
    (acc d : ℕ) (s : Text)
    → d < 16
    → all_digits 16 acc (digit_char d ∷ s) ≡ all_digits 16 (acc * 16 + d) s
unfolding all_digits
all_digits-digit_char acc d s h = rw (digit_in-digit_char d h, all_digits)

-- Reading the printed digits gives the number back, in front of any rest.
pub all_digits-print_digits :
    (f n : ℕ) (out : Text) → n ≤ f → all_digits 16 0 (print_digits 16 f n out) ≡ all_digits 16 n out
unfolding print_digits
all_digits-print_digits zero n out h = ap (λ k. all_digits 16 k out) (omega arith)
all_digits-print_digits (suc f) n out h = elim (Bool-cases (n == 0)) [
  | inl e ↦ rw e (ap (λ k. all_digits 16 k out) (ground arith))
  | inr e ↦ rw e (
      all_digits-print_digits f (n / 16) (digit_char (n % 16) ∷ out) (ground arith)
      ∙ all_digits-digit_char (n / 16) (n % 16) out (omega arith)
      ∙ ap (λ k. all_digits 16 k out) (omega arith))
]

print_digits-length :
    (f n k : ℕ) (out : Text) → n < 16 ^ k → length (print_digits 16 f n out) ≤ k + length out
unfolding print_digits
print_digits-length zero n k out h = omega arith
print_digits-length (suc f) n zero out h = ground arith
print_digits-length (suc f) n (suc k) out h = elim (Bool-cases (n == 0)) [
  | inl e ↦ rw e (omega arith)
  | inr e ↦ rw e (
      omega (
        arith,
        print_digits-length f (n / 16) k (digit_char (n % 16) ∷ out)
            (omega (arith, h, pow-suc 16 k)),
      ))
]

to_string-suc : (radix n : ℕ) → to_string radix (suc n) ≡ print_digits radix (suc n) (suc n) []
unfolding to_string
to_string-suc radix n = ground arith

-- `parseInt(n.toString(16), 16)` is `n`.
pub all_digits-to_string : (n : ℕ) → all_digits 16 0 (to_string 16 n) ≡ some n
unfolding all_digits
all_digits-to_string zero = unfold to_string in refl
all_digits-to_string (suc n) =
    rw (to_string-suc 16 n) (all_digits-print_digits (suc n) (suc n) [] (omega arith))

-- Below 16^k, at most k digits are printed.
pub length-to_string : (n k : ℕ) → 0 < k → n < 16 ^ k → length (to_string 16 n) ≤ k
length-to_string zero k p h = unfold to_string in omega arith
length-to_string (suc n) k p h =
    rw (to_string-suc 16 n) (omega (arith, print_digits-length (suc n) (suc n) k [] h))
