-- ===== src/Mint.antt =====
-- The minting flow of the marketplace, low-code-nft-marketplace/market-ui/src (pages/MintPage.tsx
-- and components/cis2). mint-ui holds the same components.
pub mod Types
pub mod BatchMint
pub mod MintPage
pub mod Prepare
pub mod PrepareOrAdd
pub mod BatchAdd
pub mod Cards
pub mod ItemPrepare
pub mod LazyMetadata
pub mod ItemAdd
pub mod Pinata
pub mod MintCall
