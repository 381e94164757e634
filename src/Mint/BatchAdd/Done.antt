-- ===== src/Mint/BatchAdd/Done.antt =====
-- When the added tokens are handed on, and which.
use mathlib.Core.List.{Memᴰ}
use mathlib.Core.Path.{subst}
use concordium_dapp_examples.Common.{
  ◌≡◌, ◌≢◌, refl, sym, ◌↔◌, inl, inr, true, false, List, [], ◌∷◌, Text, Option, none, some,
  is_empty, is_some, arith, All, Bool-cases,
}
use concordium_dapp_examples.Common.Dict.{Dict, lookup, lookup-insert_ne_none}
use concordium_dapp_examples.Mint.Types.{TokenInfo}
use concordium_dapp_examples.Mint.BatchAdd.{
  Token, State, is_unfinished, any_unfinished, add_info, collect, on_done,
}

-- The token has a name and its metadata.
abbrev pub IsFinished : Token → Type 0
IsFinished t = (is_empty t.token_id ≡ false) × (is_some t.token_info ≡ true)

is_unfinished_iff : (t : Token) → (is_unfinished t ≡ false) ↔ IsFinished t
is_unfinished_iff t = (λ h. (ground arith, ground arith), λ (p, q). ground arith)

any_unfinished_iff : (ts : List Token) → (any_unfinished ts ≡ false) ↔ All IsFinished ts
unfolding any_unfinished
any_unfinished_iff [] = (λ h. tt, λ h. refl)
any_unfinished_iff (t ∷ ts) = (
  λ h. ((is_unfinished_iff t).0 (ground arith), (any_unfinished_iff ts).0 (ground arith)),
  λ (p, q). rw ((is_unfinished_iff t).1 p) ((any_unfinished_iff ts).1 q),
)

add_info-keeps :
    (id k : Text) (i : Option TokenInfo) (ret : Dict TokenInfo)
    → lookup id ret ≢ none
    → lookup id (add_info k i ret) ≢ none
add_info-keeps id k none ret h = h
add_info-keeps id k (some info) ret h = lookup-insert_ne_none k id info ret (inl h)

add_info-has :
    (k : Text) (i : Option TokenInfo) (ret : Dict TokenInfo)
    → is_some i ≡ true
    → lookup k (add_info k i ret) ≢ none
add_info-has k none ret h = absurd (cc)
add_info-has k (some info) ret h = lookup-insert_ne_none k k info ret (inr refl)

collect-keeps :
    (id : Text) (ret : Dict TokenInfo) (ts : List Token)
    → lookup id ret ≢ none
    → lookup id (collect ret ts) ≢ none
unfolding collect
collect-keeps id ret [] h = h
collect-keeps id ret (t ∷ ts) h =
    collect-keeps id (add_info t.token_id t.token_info ret) ts
      (add_info-keeps id t.token_id t.token_info ret h)

collect-has :
    (t : Token) (ret : Dict TokenInfo) (ts : List Token)
    → Memᴰ t ts
    → All IsFinished ts
    → lookup t.token_id (collect ret ts) ≢ none
unfolding collect
collect-has t ret [] m h = elim m [ ]
collect-has t ret (u ∷ ts) (Memᴰ.head p) (f, h) =
    collect-keeps t.token_id (add_info u.token_id u.token_info ret) ts (
      subst (λ x. lookup x.token_id (add_info u.token_id u.token_info ret) ≢ none) (sym p)
        (add_info-has u.token_id u.token_info ret f.1))
collect-has t ret (u ∷ ts) (Memᴰ.tail m) (f, h) =
    collect-has t (add_info u.token_id u.token_info ret) ts m h

-- The tokens added by url are handed on exactly when each of them has an id and its metadata.
pub on_done_iff :
    (s : State) → ((ret : Dict TokenInfo) × ((on_done s).1 ≡ some ret)) ↔ All IsFinished s.tokens
unfolding on_done
on_done_iff s = elim (Bool-cases (any_unfinished s.tokens)) [
  | inl e ↦
      (λ (ret, h). absurd (cc (rw e at h)), λ h. absurd (cc ((any_unfinished_iff s.tokens).1 h)))
  | inr e ↦ (λ h. (any_unfinished_iff s.tokens).0 e, λ h. (collect [] s.tokens, rw e))
]

-- When the tokens added by url are handed on, the id of every one of them is a key of what is
-- handed on.
pub on_done-keys :
    (s : State) (ret : Dict TokenInfo) (t : Token)
    → (on_done s).1 ≡ some ret
    → Memᴰ t s.tokens
    → lookup t.token_id ret ≢ none
unfolding on_done
on_done-keys s ret t h m = elim (Bool-cases (any_unfinished s.tokens)) [
  | inl e ↦ absurd (cc (rw e at h))
  | inr e ↦
      let same : collect [] s.tokens ≡ ret = cc (rw e at h) in
      subst (λ d. lookup t.token_id d ≢ none) same
        (collect-has t [] s.tokens m ((any_unfinished_iff s.tokens).0 e))
]
