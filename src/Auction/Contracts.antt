-- ===== src/Auction/Contracts.antt =====
-- sponsoredTransactionsAuction/frontend/src/auction_contract.tsx and cis2_token_contract.tsx: the
-- calls of the two contracts. The generated clients of the entry points are parameters.
use concordium_dapp_examples.Common.{ℕ, Text, codes, Settled, Option}
use concordium_dapp_examples.DryRun.{
  Simulation, Request, Outcome, Contract, simulated, sent, dry_run_and_send, view,
}
use concordium_dapp_examples.Auction.TokenId.{Number}

-- Times are in milliseconds; the item is open for any bid.
pub record AddItemParameter : Type 0 where
  pub name : Text
  pub start : ℕ
  pub end : ℕ
  pub minimum_bid : ℕ
  pub token_id : Text

-- The owner is an account, and the metadata has no hash.
pub record MintParameter (Address : Type 0) : Type 0 where
  pub owner : Address
  pub url : Text
  pub token_id : Text

module _ {V : Type 0} (c : Contract V) where
  unfoldable pub add_item :
      (AddItemParameter → Settled (Option (Simulation V)))
      → (Request AddItemParameter → Settled Text)
      → Text
      → AddItemParameter
      → Outcome AddItemParameter
  add_item dry_run wallet sender parameter =
      dry_run_and_send (λ account. dry_run) wallet c (codes "addItem") sender parameter

  unfoldable pub view_item_state :
      {R : Type 0}
      → (Number → Settled (Option (Simulation V)))
      → (V → Option R)
      → Number
      → Settled R
  unfolding view
  view_item_state dry_run decode index = view decode c (codes "viewItemState") (dry_run index)

  -- A refused simulation of `mint` is reported as one of `nonceOf`.
  unfoldable pub mint :
      {Address : Type 0}
      → (MintParameter Address → Settled (Option (Simulation V)))
      → (Request (MintParameter Address) → Settled Text)
      → Text
      → MintParameter Address
      → Outcome (MintParameter Address)
  mint dry_run wallet sender parameter =
      sent wallet c (codes "mint") sender parameter
        (simulated c (codes "nonceOf") (dry_run parameter))
