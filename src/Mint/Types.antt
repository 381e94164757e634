-- ===== src/Mint/Types.antt =====
-- What the minting components hand to one another.
use concordium_dapp_examples.Common.{Text}

-- `CIS2.MetadataUrl`; an empty hash is an absent one.
pub record MetadataUrl : Type 0 where
  pub url : Text
  pub hash : Text

-- `[CIS2.MetadataUrl, string]`: where the metadata lies, and how many tokens to mint.
pub record TokenInfo : Type 0 where
  pub metadata_url : MetadataUrl
  pub quantity : Text

-- `{ tokenId, tokenInfo }`: what the wizard of one token hands on.
pub record NamedToken : Type 0 where
  pub token_id : Text
  pub token_info : TokenInfo

-- `File` of the browser: its name stands for it.
pub record File : Type 0 where
  pub name : Text
