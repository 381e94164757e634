-- ===== src/Market.antt =====
-- Buying and selling on the marketplace, low-code-nft-marketplace/market-ui/src (pages/SellPage.tsx,
-- components/Marketplace*.tsx, components/cis2) over common-ui/src/models/MarketplaceClient.ts.
pub mod MarketClient
pub mod TransferDialog
pub mod AddForm
pub mod FindInstance
pub mod BalanceOf
pub mod SellPage
pub mod Instances
pub mod Listing
