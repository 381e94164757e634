-- ===== src/Faucet/UsageLimit/Runs.antt =====
-- Any sequence of claims, one after the other, against the specification.
use mathlib.Core.Path.{subst}
use concordium_dapp_examples.Common.{
  ℕ, ◌+◌, ◌*◌, ◌≡◌, ◌≤◌, refl, ap, ◌∙◌, Bool, true, false, List, [], ◌∷◌, map, Text, Settled,
  fulfilled, rejected, ◌==◌, length, All, Bool-cases, inl, inr, arith, if◌then◌else◌,
}
use concordium_dapp_examples.Faucet.UsageLimit.{Explorer, check_usage_limit}
use concordium_dapp_examples.Faucet.UsageLimit.Ledger.{
  Payment, Shows, Abstract, may_pay, pay, last_paid, UpTo, may_pay_sound, check_usage_limit-may_pay,
}

-- The claims that pass all other checks, in order; the decision on each, and the ledger after them.
abbrev pub after_check : Settled Bool → Payment → List Payment → List Payment
after_check (fulfilled true) claim ledger = claim ∷ ledger
after_check (fulfilled false) claim ledger = ledger
after_check (rejected e) claim ledger = ledger

unfoldable pub run :
    (List Payment → Explorer) → ℕ → List Payment → List Payment → List (Settled Bool) × List Payment
run explorer limit [] ledger = ([], ledger)
run explorer limit ((now, receiver) ∷ claims) ledger =
    let decision = check_usage_limit (explorer ledger) limit now receiver in
    let rest = run explorer limit claims (after_check decision (now, receiver) ledger) in
    (decision ∷ rest.0, rest.1)

-- The same claims, for the faucet that remembers the last payment to each receiver.
unfoldable pub replay : ℕ → List Payment → Abstract → List Bool × Abstract
replay limit [] a = ([], a)
replay limit ((now, receiver) ∷ claims) a =
    let decision = may_pay limit now (a receiver) in
    let rest = replay limit claims (if decision then pay now receiver a else a) in
    (decision ∷ rest.0, rest.1)

-- Claims in the order of their times, from a given time on.
abbrev pub From : ℕ → List Payment → Type 0
From start [] = Unit {0}
From start ((now, receiver) ∷ claims) = (start ≤ now) × From now claims

UpTo-of_le : (early late : ℕ) (l : List Payment) → early ≤ late → UpTo early l → UpTo late l
UpTo-of_le early late [] h past = tt
UpTo-of_le early late ((time, receiver) ∷ l) h past = (omega arith, past.1)

last_paid-cons :
    (now : ℕ) (receiver : Text) (l : List Payment)
    → last_paid ((now, receiver) ∷ l) ≡ pay now receiver (last_paid l)
unfolding last_paid
last_paid-cons now receiver l = refl

-- A ledger only grows.
after_check-grows :
    (d : Settled Bool) (claim : Payment) (ledger : List Payment)
    → length ledger ≤ length (after_check d claim ledger)
after_check-grows (fulfilled true) claim ledger = omega arith
after_check-grows (fulfilled false) claim ledger = omega arith
after_check-grows (rejected e) claim ledger = omega arith

run-grows :
    (explorer : List Payment → Explorer) (limit : ℕ) (claims ledger : List Payment)
    → length ledger ≤ length (run explorer limit claims ledger).1
unfolding run
run-grows explorer limit [] ledger = omega arith
run-grows explorer limit ((now, receiver) ∷ claims) ledger =
    let d = check_usage_limit (explorer ledger) limit now receiver in
    omega (
      arith,
      after_check-grows d (now, receiver) ledger,
      run-grows explorer limit claims (after_check d (now, receiver) ledger),
    )

-- The decisions are those of the specification, and so are the last payments afterwards.
abbrev pub Refines : (List Payment → Explorer) → ℕ → List Payment → List Payment → Type 0
Refines explorer limit claims ledger =
    ((run explorer limit claims ledger).0
      ≡ map fulfilled (replay limit claims (last_paid ledger)).0)
    × (last_paid (run explorer limit claims ledger).1 ≡ (replay limit claims (last_paid ledger)).1)

-- Two payments to one receiver are at least the limit apart.
abbrev pub Spaced : ℕ → List Payment → Type 0
Spaced limit [] = Unit {0}
Spaced limit ((time, receiver) ∷ l) =
    All (λ p. p.1 ≡ receiver → p.0 + 3600 * limit ≤ time) l × Spaced limit l

module _ (explorer : List Payment → Explorer) (limit : ℕ)
    (shows : (l : List Payment) → Shows (explorer l) l) (pos : (limit == 0) ≡ false) where
  Refines-cons :
      (now : ℕ) (receiver : Text) (claims ledger : List Payment) (d : Bool)
      → check_usage_limit (explorer ledger) limit now receiver ≡ fulfilled d
      → may_pay limit now (last_paid ledger receiver) ≡ d
      → Refines explorer limit claims (after_check (fulfilled d) (now, receiver) ledger)
      → Refines explorer limit ((now, receiver) ∷ claims) ledger
  unfolding run replay last_paid
  Refines-cons now receiver claims ledger true e m (h, k) =
      rw e (rw m (ap (λ l. fulfilled true ∷ l) h, k))
  Refines-cons now receiver claims ledger false e m (h, k) =
      rw e (rw m (ap (λ l. fulfilled false ∷ l) h, k))

  decided :
      (now : ℕ) (receiver : Text) (ledger : List Payment) (d : Bool)
      → length ledger ≤ 1000
      → UpTo now ledger
      → may_pay limit now (last_paid ledger receiver) ≡ d
      → check_usage_limit (explorer ledger) limit now receiver ≡ fulfilled d
  decided now receiver ledger d few past m =
      check_usage_limit-may_pay (explorer ledger) ledger limit now receiver (shows ledger) pos few
        past
      ∙ ap fulfilled m

  few_before :
      (now : ℕ) (receiver : Text) (claims ledger : List Payment)
      → length (run explorer limit ((now, receiver) ∷ claims) ledger).1 ≤ 1000
      → length ledger ≤ 1000
  few_before now receiver claims ledger few =
      omega (arith, run-grows explorer limit ((now, receiver) ∷ claims) ledger)

  few_after :
      (now : ℕ) (receiver : Text) (claims ledger : List Payment) (d : Bool)
      → check_usage_limit (explorer ledger) limit now receiver ≡ fulfilled d
      → length (run explorer limit ((now, receiver) ∷ claims) ledger).1 ≤ 1000
      → length (run explorer limit claims (after_check (fulfilled d) (now, receiver) ledger)).1
        ≤ 1000
  unfolding run
  few_after now receiver claims ledger d e few =
      subst
        (λ r. length (run explorer limit claims (after_check r (now, receiver) ledger)).1 ≤ 1000) e
        few

  -- For any claims in the order of their times, one after the other, of a ledger that is in the
  -- order of its times and has at most 1000 payments after the claims, with an explorer that shows
  -- the latest 1000 payments: the decisions of the usage check are those of a faucet that
  -- remembers the time of the last payment to each receiver and pays when the limit has passed
  -- since, and the last payments of the resulting ledger are those that this faucet remembers.
  pub run-Refines :
      (start : ℕ) (claims ledger : List Payment)
      → UpTo start ledger
      → From start claims
      → length (run explorer limit claims ledger).1 ≤ 1000
      → Refines explorer limit claims ledger
  unfolding run replay
  run-Refines start [] ledger past order few = (refl, refl)
  run-Refines start ((now, receiver) ∷ claims) ledger past order few =
      let before = UpTo-of_le start now ledger order.0 past in
      let small = few_before now receiver claims ledger few in
      elim (Bool-cases (may_pay limit now (last_paid ledger receiver))) [
        | inl m ↦
            let d = decided now receiver ledger true small before m in
            Refines-cons now receiver claims ledger true d m (
              run-Refines now claims ((now, receiver) ∷ ledger) (omega arith, before) order.1
                (few_after now receiver claims ledger true d few))
        | inr m ↦
            let d = decided now receiver ledger false small before m in
            Refines-cons now receiver claims ledger false d m (
              run-Refines now claims ledger before order.1
                (few_after now receiver claims ledger false d few))
      ]

  -- For any claims in the order of their times, of a ledger that is in the order of its times, has
  -- payments to one receiver at least the limit apart and has at most 1000 payments after the
  -- claims, with an explorer that shows the latest 1000 payments: the resulting ledger has
  -- payments to one receiver at least the limit apart.
  pub run-Spaced :
      (start : ℕ) (claims ledger : List Payment)
      → UpTo start ledger
      → From start claims
      → length (run explorer limit claims ledger).1 ≤ 1000
      → Spaced limit ledger
      → Spaced limit (run explorer limit claims ledger).1
  unfolding run
  run-Spaced start [] ledger past order few apart = apart
  run-Spaced start ((now, receiver) ∷ claims) ledger past order few apart =
      let before = UpTo-of_le start now ledger order.0 past in
      let small = few_before now receiver claims ledger few in
      elim (Bool-cases (may_pay limit now (last_paid ledger receiver))) [
        | inl m ↦
            let d = decided now receiver ledger true small before m in
            rw d (
              run-Spaced now claims ((now, receiver) ∷ ledger) (omega arith, before) order.1
                (few_after now receiver claims ledger true d few)
                (may_pay_sound limit now receiver now ledger before m, apart))
        | inr m ↦
            let d = decided now receiver ledger false small before m in
            rw d (
              run-Spaced now claims ledger before order.1
                (few_after now receiver claims ledger false d few) apart)
      ]
