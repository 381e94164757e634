-- ===== src/Faucet/UsageLimit/Tests.antt =====
-- The usage limit with a concrete explorer.
use concordium_dapp_examples.Common.{
  ℕ, zero, suc, ◌≡◌, ◌≢◌, refl, ◌++◌, [], ◌∷◌, List, true, false, map, codes, fulfilled, arith, All,
  length, eq_text,
}
use concordium_dapp_examples.TokenId.{replicate}
use concordium_dapp_examples.Faucet.UsageLimit.{Explorer, answered, check_usage_limit}
use concordium_dapp_examples.Faucet.UsageLimit.Ledger.{
  Payment, Shows, take, listed, last_paid, check_usage_limit-hidden,
}
use concordium_dapp_examples.Faucet.UsageLimit.Runs.{
  run, replay, Refines, Spaced, run-Refines, run-Spaced,
}

abbrev explorer : List Payment → Explorer
explorer l = record {
  explorer_api_url = codes "https://explorer";
  sender_address = codes "faucet";
  fetch = λ path. fulfilled (answered (fulfilled (map listed (take 1000 l))));
}

explorer-Shows : (l : List Payment) → Shows (explorer l) l
explorer-Shows l = record { has_url = refl; has_sender = refl; answers = refl }

-- Alice twice within a day, and again the day after.
abbrev claims : List Payment
claims =
    (10000, codes "alice")
    ∷ (10060, codes "bob")
    ∷ (20000, codes "alice")
    ∷ (96400, codes "alice")
    ∷ []

decisions : (replay 24 claims (last_paid [])).0 ≡ true ∷ true ∷ false ∷ true ∷ []
unfolding replay last_paid eq_text
decisions = refl

three_paid : length (run explorer 24 claims []).1 ≡ 3
unfolding run check_usage_limit eq_text
three_paid = refl

run-Refines_example : Refines explorer 24 claims []
run-Refines_example =
    run-Refines explorer 24 explorer-Shows refl 0 claims [] tt (omega arith)
      (omega (arith, three_paid))

run-Spaced_example : Spaced 24 (run explorer 24 claims []).1
run-Spaced_example =
    run-Spaced explorer 24 explorer-Shows refl 0 claims [] tt (omega arith)
      (omega (arith, three_paid)) tt

abbrev others : List Payment
others = replicate 1000 (50000, codes "bob")

others-NotAlice : All (λ (p : Payment). p.1 ≢ codes "alice") others
others-NotAlice = all_of (λ e. cc) 1000
  where
    all_of :
        (codes "bob" ≢ codes "alice")
        → (n : ℕ) → All (λ (p : Payment). p.1 ≢ codes "alice") (replicate n (50000, codes "bob"))
    all_of h zero = tt
    all_of h (suc n) = (h, all_of h n)

check_usage_limit-hidden_example :
    check_usage_limit (explorer (others ++ ((40000, codes "alice") ∷ []))) 24 50000 (codes "alice")
    ≡ fulfilled true
check_usage_limit-hidden_example =
    check_usage_limit-hidden (explorer (others ++ ((40000, codes "alice") ∷ []))) others
      ((40000, codes "alice") ∷ []) 24 50000 (codes "alice") (explorer-Shows _) refl refl
      others-NotAlice
