-- ===== src/Trace/TokenIdU64/RoundTrip.antt =====
-- Writing the number of an item as a token id, and reading it back.
use mathlib.Core.List.{reverse, reverse-cons, reverse-reverse, append_assoc}
use concordium_dapp_examples.Common.{
  ℕ, zero, suc, ◌+◌, ◌*◌, ◌≡◌, ◌≢◌, refl, sym, ◌∙◌, ap, ◌++◌, List, [], ◌∷◌, Text, codes, length,
  length-append, All, arith, false,
}
use concordium_dapp_examples.Js.{all_digits, bigint}
use concordium_dapp_examples.Js.Trim.{IsVisible, All-reverse, hex_value, bigint-hex}
use concordium_dapp_examples.Trace.TokenIdU64.{
  is_line_terminator, pairs, join, big_endian, from_token_id_u64,
}

-- Two visible characters.
abbrev IsPair : Text → Type 0
IsPair [] = ⊥
IsPair (c ∷ []) = ⊥
IsPair (c ∷ d ∷ []) = IsVisible c × IsVisible d
IsPair (c ∷ d ∷ e ∷ s) = ⊥

visible_matches : (c : ℕ) → IsVisible c → is_line_terminator c ≡ false
unfolding is_line_terminator
visible_matches c h = ground arith

pairs-cons :
    (c d : ℕ) (s : Text) → IsVisible c → IsVisible d → pairs (c ∷ d ∷ s) ≡ (c ∷ d ∷ []) ∷ pairs s
unfolding pairs
pairs-cons c d s hc hd = rw (visible_matches c hc, visible_matches d hd) refl

pairs-join : (l : List Text) → All IsPair l → pairs (join l) ≡ l
unfolding join
pairs-join [] h = unfold pairs in refl
pairs-join ([] ∷ l) h = absurd h.0
pairs-join ((c ∷ []) ∷ l) h = absurd h.0
pairs-join ((c ∷ d ∷ []) ∷ l) (h, hl) =
    pairs-cons c d (join l) h.0 h.1 ∙ ap (λ r. (c ∷ d ∷ []) ∷ r) (pairs-join l hl)
pairs-join ((c ∷ d ∷ e ∷ s) ∷ l) h = absurd h.0

-- Visible characters, an even number of them.
pub IsBytes : Text → Type 0
IsBytes [] = Unit
IsBytes (c ∷ []) = ⊥
IsBytes (c ∷ d ∷ s) = (IsVisible c × IsVisible d) × IsBytes s

pub IsBytes-of_length : (k : ℕ) (s : Text) → All IsVisible s → length s ≡ 2 * k → IsBytes s
unfolding IsBytes
IsBytes-of_length k [] h e = tt
IsBytes-of_length k (c ∷ []) h e = absurd (omega arith)
IsBytes-of_length zero (c ∷ d ∷ s) h e = absurd (omega arith)
IsBytes-of_length (suc k) (c ∷ d ∷ s) (hc, (hd, hs)) e =
    ((hc, hd), IsBytes-of_length k s hs (omega arith))

join-pairs : (s : Text) → IsBytes s → join (pairs s) ≡ s
unfolding join IsBytes
join-pairs [] h = unfold pairs in refl
join-pairs (c ∷ []) h = absurd h
join-pairs (c ∷ d ∷ s) (h, hs) =
    ap join (pairs-cons c d s h.0 h.1) ∙ ap (λ r. c ∷ d ∷ r) (join-pairs s hs)

All-pairs : (s : Text) → IsBytes s → All IsPair (pairs s)
unfolding IsBytes
All-pairs [] h = unfold pairs in tt
All-pairs (c ∷ []) h = absurd h
All-pairs (c ∷ d ∷ s) (h, hs) = rw (pairs-cons c d s h.0 h.1) (h, All-pairs s hs)

-- The pairs of a text, in reverse.
unfoldable pub swapped : Text → Text
swapped s = join (reverse (pairs s))

pairs-swapped : (s : Text) → IsBytes s → pairs (swapped s) ≡ reverse (pairs s)
unfolding swapped
pairs-swapped s h = pairs-join (reverse (pairs s)) (All-reverse IsPair (pairs s) (All-pairs s h))

swapped_twice : (s : Text) → IsBytes s → swapped (swapped s) ≡ s
unfolding swapped
swapped_twice s h =
    ap (λ l. join (reverse l)) (pairs-swapped s h)
    ∙ ap join (reverse-reverse (pairs s))
    ∙ join-pairs s h

join-append : (l r : List Text) → join (l ++ r) ≡ join l ++ join r
unfolding join
join-append [] r = refl
join-append (t ∷ l) r = simp (join-append l r, append_assoc)

length-join-nil : length (join []) ≡ 0
unfolding join
length-join-nil = refl

length-join-cons : (t : Text) (l : List Text) → length (join (t ∷ l)) ≡ length t + length (join l)
unfolding join
length-join-cons t l = length-append {0} t (join l)

length-join-reverse : (l : List Text) → length (join (reverse l)) ≡ length (join l)
length-join-reverse [] = refl
length-join-reverse (t ∷ l) =
    ap (λ r. length (join r)) (reverse-cons t l)
    ∙ ap length (join-append (reverse l) (t ∷ []))
    ∙ omega (
      arith,
      length-append {0} (join (reverse l)) (join (t ∷ [])),
      length-join-cons t [],
      length-join-cons t l,
      length-join-reverse l,
      length-join-nil,
    )

pub length-swapped : (s : Text) → IsBytes s → length (swapped s) ≡ length s
unfolding swapped
length-swapped s h = length-join-reverse (pairs s) ∙ ap length (join-pairs s h)

swapped-ne-nil : (s : Text) (k : ℕ) → IsBytes s → length s ≡ suc k → pairs (swapped s) ≢ []
swapped-ne-nil s k h e none_left = absurd (ground (arith, nothing))
  where
    nothing : length s ≡ 0
    nothing =
        ap length (sym (swapped_twice s h))
        ∙ unfold swapped in ap (λ l. length (join (reverse l))) none_left ∙ length-join-nil

big_endian_lem : (l : List Text) → l ≢ [] → big_endian l ≡ join (reverse l)
unfolding big_endian
big_endian_lem [] h = absurd (h refl)
big_endian_lem (t ∷ l) h = refl

-- What is read from the reversed bytes of a text are its digits.
pub from_token_id_u64-swapped :
    (s : Text) (k : ℕ)
    → All IsVisible s
    → length s ≡ 2 * suc k
    → from_token_id_u64 (swapped s) ≡ hex_value (all_digits 16 0 s)
unfolding from_token_id_u64
from_token_id_u64-swapped s k h e =
    ap (λ t. bigint (codes "0x" ++ (t ++ codes " ")))
      (big_endian_lem _ (swapped-ne-nil s (2 * k + 1) bytes (omega arith)) ∙ twice)
    ∙ bigint-hex s h (λ e'. absurd (omega (arith, ap length e')))
  where
    bytes : IsBytes s
    bytes = IsBytes-of_length (suc k) s h e

    twice : join (reverse (pairs (swapped s))) ≡ s
    twice = unfold swapped in swapped_twice s bytes
