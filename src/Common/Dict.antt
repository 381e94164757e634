-- ===== src/Common/Dict.antt =====
-- A JavaScript object used as a dictionary (`Record<string, V>`): its entries in the order in which
-- the keys were first written. (The engine moves array-index keys to the front; no theorem depends
-- on the order.)
use mathlib.Core.Path.{◌≡◌, refl, ap}
use mathlib.Core.Option.{Option, none, some}
use mathlib.Core.List.{List, [], ◌∷◌, Memᴰ}
use native.Mathlib.Omega.{arith}
use Prim.Native.Nat.{suc, ◌+◌, ◌≤◌}
use concordium_dapp_examples.Common.Tests.{if◌then◌else◌, Bool-cases}
use concordium_dapp_examples.Common.Texts.{Text, eq_text, eq_text_iff}
use concordium_dapp_examples.Common.Lists.{length}
use mathlib.Core.Logic.{◌≢◌, ◌⊎◌, inl, inr}

abbrev pub Dict {ℓ} : Type ℓ → Type ℓ
Dict V = List (Text × V)

module _ {ℓ} {V : Type ℓ} where
  -- `d[k]`
  unfoldable pub lookup : Text → Dict V → Option V
  lookup k [] = none
  lookup k ((j, v) ∷ d) = if eq_text j k then some v else lookup k d

  -- `d[k] = v`
  unfoldable pub insert : Text → V → Dict V → Dict V
  insert k v [] = (k, v) ∷ []
  insert k v ((j, w) ∷ d) = if eq_text j k then (j, v) ∷ d else (j, w) ∷ insert k v d

  -- `Object.values(d)`
  abbrev pub values : Dict V → List V
  values [] = []
  values ((j, v) ∷ d) = v ∷ values d

  -- `{ ...d, ...e }`
  unfoldable pub merge : Dict V → Dict V → Dict V
  merge d [] = d
  merge d ((k, v) ∷ e) = merge (insert k v d) e

  pub lookup-insert :
      (k j : Text) (v : V) (d : Dict V)
      → lookup j (insert k v d) ≡ (if eq_text k j then some v else lookup j d)
  unfolding lookup insert
  lookup-insert k j v [] = refl
  lookup-insert k j v ((i, w) ∷ d) =
      ground (arith, eq_text_iff k j, eq_text_iff i k, eq_text_iff i j, lookup-insert k j v d)

  pub length-insert : (k : Text) (v : V) (d : Dict V) → length (insert k v d) ≤ length d + 1
  unfolding insert
  length-insert k v [] = omega arith
  length-insert k v ((j, w) ∷ d) = ground (arith, length-insert k v d)

  pub length-insert_old :
      (k : Text) (v w : V) (d : Dict V) → lookup k d ≡ some w → length (insert k v d) ≡ length d
  unfolding insert lookup
  length-insert_old k v w [] h = cc
  length-insert_old k v w ((j, u) ∷ d) h = ground (arith, length-insert_old k v w d)

  pub length-insert_new :
      (k : Text) (v : V) (d : Dict V) → lookup k d ≡ none → length (insert k v d) ≡ length d + 1
  unfolding insert lookup
  length-insert_new k v [] h = omega arith
  length-insert_new k v ((j, u) ∷ d) h = ground (arith, length-insert_new k v d)

  -- A key that is there stays there.
  pub lookup-insert_ne_none :
      (k j : Text) (v : V) (d : Dict V)
      → (lookup j d ≢ none) ⊎ (k ≡ j)
      → lookup j (insert k v d) ≢ none
  lookup-insert_ne_none k j v d h = rw lookup-insert (ground (arith, eq_text_iff k j))

  pub length-values : (d : Dict V) → length (values d) ≡ length d
  length-values [] = refl
  length-values (e ∷ d) = ap suc (length-values d)

  -- A value that is found is among the values.
  pub mem_values : (k : Text) (v : V) (d : Dict V) → lookup k d ≡ some v → Memᴰ v (values d)
  unfolding lookup
  mem_values k v [] h = absurd (cc)
  mem_values k v ((j, w) ∷ d) h = elim (Bool-cases (eq_text j k)) [
    | inl e ↦ Memᴰ.head (ground arith)
    | inr e ↦ Memᴰ.tail (mem_values k v d (ground arith))
  ]

  -- No key is there twice, as in every JavaScript object.
  abbrev pub HasDistinctKeys : Dict V → Type ℓ
  HasDistinctKeys [] = Unit
  HasDistinctKeys ((k, v) ∷ d) = (lookup k d ≡ none) × HasDistinctKeys d

  abbrev pub or_else : Option V → Option V → Option V
  or_else none o = o
  or_else (some v) o = some v

  -- In `{ ...d, ...e }` the entries of `e` win.
  pub lookup-merge :
      (k : Text) (d e : Dict V)
      → HasDistinctKeys e
      → lookup k (merge d e) ≡ or_else (lookup k e) (lookup k d)
  unfolding merge lookup
  lookup-merge k d [] h = refl
  lookup-merge k d ((j, v) ∷ e) (new, h) = elim (Bool-cases (eq_text j k)) [
    | inl same ↦
        let at_k : lookup k e ≡ none = rw (← (eq_text_iff j k).0 same) new in
        rw (lookup-merge k (insert j v d) e h, at_k, lookup-insert j k v d, same)
    | inr other ↦ rw (lookup-merge k (insert j v d) e h, lookup-insert j k v d, other)
  ]
