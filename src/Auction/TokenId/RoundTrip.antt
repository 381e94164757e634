-- ===== src/Auction/TokenId/RoundTrip.antt =====
-- Reading token ids and bytes back.
use concordium_dapp_examples.Common.{
  ℕ, ◌+◌, ◌*◌, ◌%◌, ◌<◌, ◌≡◌, refl, ◌∙◌, ap, ◌++◌, List, [], ◌∷◌, Option, none, some, Text, arith,
  length, All,
}
use concordium_dapp_examples.Js.{all_digits, below, digit_in, digit_value, to_string}
use concordium_dapp_examples.Js.Hex.{all_digits-to_string, length-to_string}
use concordium_dapp_examples.TokenId.{pad_start}
use concordium_dapp_examples.TokenId.RoundTrip.{all_digits-zeros, length-pad_start}
use concordium_dapp_examples.Auction.TokenId.{natural, last_two, to_hex, token_id, hex_string}

length-last_two : (c d : ℕ) (s : Text) → length (last_two (c ∷ d ∷ s)) ≡ 2
unfolding last_two
length-last_two c d [] = refl
length-last_two c d (e ∷ s) = length-last_two d e s

-- Digits are below 16.
below-small : (o : Option ℕ) (d : ℕ) → below 16 o ≡ some d → d < 16
below-small none d h = cc
below-small (some e) d h = grind (arith, h)

digit_in-small : (c d : ℕ) → digit_in 16 c ≡ some d → d < 16
unfolding digit_in
digit_in-small c d h = below-small (digit_value c) d h

-- The first digit, and what the digits after it are read as.
all_digits-cons :
    (acc n c : ℕ) (s : Text)
    → all_digits 16 acc (c ∷ s) ≡ some n
    → (d : ℕ) × (digit_in 16 c ≡ some d) × (all_digits 16 (acc * 16 + d) s ≡ some n)
unfolding all_digits
all_digits-cons acc n c s h = go (digit_in 16 c) refl h
  where
    go :
        (o : Option ℕ)
        → digit_in 16 c ≡ o
        → ◌≡◌ {A = Option ℕ}
            (elim o [ none ↦ none | some d ↦ all_digits 16 (acc * 16 + d) s ])
            (some n)
        → (d : ℕ) × (digit_in 16 c ≡ some d) × (all_digits 16 (acc * 16 + d) s ≡ some n)
    go none e k = cc
    go (some d) e k = (d, e, k)

all_digits-pair :
    (c d x y : ℕ)
    → digit_in 16 c ≡ some x
    → digit_in 16 d ≡ some y
    → (acc : ℕ) → all_digits 16 acc (c ∷ d ∷ []) ≡ some ((acc * 16 + x) * 16 + y)
unfolding all_digits
all_digits-pair c d x y h k acc = rw (h, k, all_digits)

end_value : (acc n : ℕ) → all_digits 16 acc [] ≡ some n → acc ≡ n
unfolding all_digits
end_value acc n h = cc

total_remainder :
    (acc x y n : ℕ) → x < 16 → y < 16 → (acc * 16 + x) * 16 + y ≡ n → x * 16 + y ≡ n % 256
total_remainder acc x y n a b h = omega arith

-- The last two digits are read as the remainder by 256.
all_digits-last_two :
    (acc n c d : ℕ) (s : Text)
    → all_digits 16 acc (c ∷ d ∷ s) ≡ some n
    → all_digits 16 0 (last_two (c ∷ d ∷ s)) ≡ some (n % 256)
unfolding last_two
all_digits-last_two acc n c d [] h =
    let (x, ex, hx) = all_digits-cons acc n c (d ∷ []) h in
    let (y, ey, hy) = all_digits-cons (acc * 16 + x) n d [] hx in
    let e : x * 16 + y ≡ n % 256 =
      total_remainder acc x y n (digit_in-small c x ex) (digit_in-small d y ey)
        (end_value _ n hy) in
    all_digits-pair c d x y ex ey 0 ∙ ap some (omega (arith, e))
all_digits-last_two acc n c d (e ∷ s) h =
    all_digits-last_two (acc * 16 + (all_digits-cons acc n c (d ∷ e ∷ s) h).0) n d e s
      (all_digits-cons acc n c (d ∷ e ∷ s) h).2

to_string-zero : (n : ℕ) → 0 ≡ n → to_string 16 n ≡ b'0' ∷ []
unfolding to_string
to_string-zero n h = grind (arith, h)

-- The token id of a natural number.
module _ (n : ℕ) where
  token_id-read :
      (t : Text)
      → t ≡ to_string 16 n
      → (length (last_two (b'0' ∷ t)) ≡ 2)
        × (all_digits 16 0 (last_two (b'0' ∷ t)) ≡ some (n % 256))
  token_id-read [] e =
      cc (e, to_string-zero n (end_value 0 n (ap (all_digits 16 0) e ∙ all_digits-to_string n)))
  token_id-read (c ∷ t) e = (
    length-last_two b'0' c t,
    all_digits-last_two 0 n b'0' c t
        (all_digits-zeros 1 (c ∷ t) ∙ ap (all_digits 16 0) e ∙ all_digits-to_string n),
  )

  -- The token id that the auction makes of a natural number has two characters, and read as
  -- hexadecimal digits it is the remainder of the number by 256.
  pub all_digits-token_id :
      (length (token_id (natural n)) ≡ 2)
      × (all_digits 16 0 (token_id (natural n)) ≡ some (n % 256))
  unfolding token_id to_hex
  all_digits-token_id = token_id-read (to_string 16 n) refl

-- Two digits for each byte: reading the text of bytes back, byte by byte.
unfoldable pub read_bytes : Text → Option (List ℕ)
read_bytes [] = some []
read_bytes (c ∷ []) = none
read_bytes (c ∷ d ∷ s) =
    let rest = read_bytes s in
    elim (all_digits 16 0 (c ∷ d ∷ [])) [
      | none ↦ none
      | some b ↦ elim rest [ none ↦ none | some bytes ↦ some (b ∷ bytes) ]
    ]

read_bytes-append :
    (t s : Text) (b : ℕ) (bytes : List ℕ)
    → length t ≡ 2
    → all_digits 16 0 t ≡ some b
    → read_bytes s ≡ some bytes
    → read_bytes (t ++ s) ≡ some (b ∷ bytes)
unfolding read_bytes
read_bytes-append [] s b bytes l h k = grind (arith, l)
read_bytes-append (c ∷ []) s b bytes l h k = grind (arith, l)
read_bytes-append (c ∷ d ∷ []) s b bytes l h k = rw (h, k, read_bytes)
read_bytes-append (c ∷ d ∷ e ∷ t) s b bytes l h k = grind (arith, l)

-- The text of a list of bytes is read back as those bytes.
pub read_bytes-hex_string :
    (bytes : List ℕ) → All (λ b. b < 256) bytes → read_bytes (hex_string bytes) ≡ some bytes
unfolding hex_string read_bytes
read_bytes-hex_string [] h = refl
read_bytes-hex_string (b ∷ bytes) (small, h) =
    read_bytes-append (pad_start 2 b'0' (to_string 16 b)) (hex_string bytes) b bytes
      (length-pad_start 2 b'0' (to_string 16 b) (length-to_string b 2 (omega arith) small))
      (unfold pad_start in all_digits-zeros _ (to_string 16 b) ∙ all_digits-to_string b)
      (read_bytes-hex_string bytes h)
