-- ===== src/Market/BalanceOf/Answers.antt =====
-- When the balance is handed on.
use concordium_dapp_examples.Common.{◌≡◌, ◌↔◌, Text, some, arith}
use concordium_dapp_examples.Common.Int.{ℤ, pos, ◌<ℤ◌}
use concordium_dapp_examples.Market.BalanceOf.{
  State, Answer, balance, rejected_receive, other_error, on_answer,
}

-- A token id and a balance are handed on exactly when the contract answers with that balance, it
-- is above 0, and the id is the one that was asked about.
pub on_answer-done_iff :
    (captured : State) (answer : Answer) (id : Text) (b : ℤ)
    → ((on_answer captured answer).1 ≡ some (id, b))
      ↔ ((answer ≡ balance b) × (id ≡ captured.token_id) × (pos 0 <ℤ b))
unfolding on_answer
on_answer-done_iff captured (balance c) id b =
    (λ h. (ground arith, ground arith, ground arith), λ (p, q, r). ground arith)
on_answer-done_iff captured (rejected_receive n m) id b =
    (λ h. absurd (cc), λ (p, q, r). absurd (cc))
on_answer-done_iff captured (other_error m) id b = (λ h. absurd (cc), λ (p, q, r). absurd (cc))
