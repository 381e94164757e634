-- ===== src/Sponsored.antt =====
-- Sponsored transactions, sponsoredTransactions/frontend/src.
pub mod Requests
pub mod Page
