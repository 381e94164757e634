-- ===== src/Auction.antt =====
-- The auction with sponsored bids, sponsoredTransactionsAuction/frontend/src.
pub mod TokenId
pub mod Contracts
pub mod Forms
pub mod Bid
