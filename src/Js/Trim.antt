-- ===== src/Js/Trim.antt =====
-- Trimming texts of visible ASCII characters, and the digits that are printed as such.
use mathlib.Core.List.{reverse, reverse-append, reverse-cons, reverse-reverse}
use concordium_dapp_examples.Common.{
  ℕ, zero, suc, ◌/◌, ◌%◌, ◌≤◌, ◌<◌, ◌≡◌, refl, ◌∙◌, ap, ◌++◌, List, [], ◌∷◌, Text, ◌==◌, Bool-cases,
  inl, inr, arith, false, All, Option, none, some, ◌≢◌, codes, All-append,
}
use concordium_dapp_examples.Js.{
  is_space, trim_start, trim, digit_char, print_digits, to_string, bigint, bigint_literal, radix_of,
  some_digits, number, all_digits,
}
use concordium_dapp_examples.Common.Int.{ℤ, pos}

abbrev pub IsVisible : ℕ → Type 0
IsVisible c = (45 ≤ c) × (c < 128)

pub All-reverse {ℓ κ} : {A : Type ℓ} (P : A → Type κ) (l : List A) → All P l → All P (reverse l)
All-reverse P [] h = tt
All-reverse P (x ∷ l) h =
    rw (reverse-cons x l) (All-append P (reverse l) (x ∷ []) (All-reverse P l h.1) (h.0, tt))

is_space_of_IsVisible : (c : ℕ) → IsVisible c → is_space c ≡ false
unfolding is_space
is_space_of_IsVisible c h = ground arith

trim_start_of_IsVisible : (s : Text) → All IsVisible s → trim_start s ≡ s
unfolding trim_start
trim_start_of_IsVisible [] h = refl
trim_start_of_IsVisible (c ∷ s) h = rw (is_space_of_IsVisible c h.0) refl

trim_start-append :
    (c : ℕ) (s rest : Text) → IsVisible c → trim_start ((c ∷ s) ++ rest) ≡ (c ∷ s) ++ rest
unfolding trim_start
trim_start-append c s rest h = rw (is_space_of_IsVisible c h) refl

trim_start-space : (s : Text) → trim_start (b' ' ∷ s) ≡ trim_start s
unfolding trim_start is_space
trim_start-space s = refl

-- A space behind visible characters is removed, and nothing else.
pub trim-append_space :
    (c : ℕ) (s : Text) → All IsVisible (c ∷ s) → trim ((c ∷ s) ++ (b' ' ∷ [])) ≡ c ∷ s
unfolding trim
trim-append_space c s h =
    ap (λ t. reverse (trim_start (reverse t))) (trim_start-append c s (b' ' ∷ []) h.0)
    ∙ ap (λ t. reverse (trim_start t)) (reverse-append (c ∷ s) (b' ' ∷ []))
    ∙ ap reverse (trim_start-space (reverse (c ∷ s)))
    ∙ ap reverse (trim_start_of_IsVisible _ (All-reverse IsVisible (c ∷ s) h))
    ∙ reverse-reverse (c ∷ s)

digit_char-IsVisible : (d : ℕ) → d < 16 → IsVisible (digit_char d)
digit_char-IsVisible d h = ground arith

print_digits-IsVisible :
    (f n : ℕ) (out : Text) → All IsVisible out → All IsVisible (print_digits 16 f n out)
unfolding print_digits
print_digits-IsVisible zero n out h = h
print_digits-IsVisible (suc f) n out h = elim (Bool-cases (n == 0)) [
  | inl e ↦ rw e h
  | inr e ↦ rw e (
      print_digits-IsVisible f (n / 16) (digit_char (n % 16) ∷ out)
        (digit_char-IsVisible (n % 16) (omega arith), h))
]

pub to_string-IsVisible : (n : ℕ) → All IsVisible (to_string 16 n)
unfolding to_string
to_string-IsVisible n = elim (Bool-cases (n == 0)) [
  | inl e ↦ rw e (omega arith)
  | inr e ↦ rw e (print_digits-IsVisible n n [] tt)
]

-- The value of hexadecimal digits, if they are such.
abbrev pub hex_value : Option ℕ → Option ℤ
hex_value none = none
hex_value (some n) = some (pos n)

number-hex_value : (o : Option ℕ) → number false o ≡ hex_value o
number-hex_value none = refl
number-hex_value (some n) = refl

-- `BigInt("0x" + s + " ")`
pub bigint-hex :
    (s : Text)
    → All IsVisible s
    → s ≢ []
    → bigint (codes "0x" ++ (s ++ codes " ")) ≡ hex_value (all_digits 16 0 s)
unfolding bigint bigint_literal radix_of some_digits
bigint-hex [] h ne = absurd (ne refl)
bigint-hex (c ∷ s) h ne =
    ap bigint_literal (trim-append_space b'0' (b'x' ∷ c ∷ s) (omega arith, (omega arith, h)))
    ∙ number-hex_value (all_digits 16 0 (c ∷ s))
