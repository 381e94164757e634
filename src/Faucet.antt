-- ===== src/Faucet.antt =====
-- The testnet faucet, testnet-faucet/src.
pub mod PostUrl
pub mod UsageLimit
pub mod Claim
pub mod Page
