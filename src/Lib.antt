-- ===== src/Lib.antt =====
-- Applications of the repository: the low-code NFT marketplace with its contract clients and the
-- pages on which a user mints tokens and puts them on sale; the frontend of track and trace; the
-- testnet faucet; the page that signs and submits sponsored transactions; and the auction whose
-- bids are sponsored transactions. Paths are from the root of the repository.
--
-- How the parts interact. The pages are React components. A page is a wizard: its state names the
-- step, the step decides which component is rendered, and the component calls back with what it
-- found. Components that send transactions do so through
-- low-code-nft-marketplace/common-ui/src/models/ConcordiumContractClient.ts, which asks the
-- wallet and then polls the node. The forms of track and trace simulate an update on the node
-- before the wallet is asked (DryRun), or have the wallet sign a message that a backend submits.
-- The page of the faucet asks the faucet's server, whose handlers ask an explorer and a post
-- service before they send a transfer. The page of sponsored transactions has the wallet sign a
-- permit message and posts it with its signature to a backend, and so does the bid of the auction,
-- which first asks the node for the token of the item.
--
-- How they are modelled. The state of a component is a record of what its `useState` holds. A
-- handler is a function on it; where the program calls `onDone`, the function also returns what
-- is handed on. The callbacks of a promise read the state as it was when the promise was made:
-- they take it as an argument (`captured`). Events that interleave are step relations with their
-- reachable states. A promise settles with a value or with the message of an error (`Settled`).
-- An exception that `BigInt` throws is a result of its own (`thrown`, `throws`).
--
-- Which file models what. Functions keep the names of the source in antt's spelling.
--   Common: lists, texts (lists of UTF-16 code units), options, settled promises, dictionaries in
--     insertion order, integers
--   Js: `BigInt(text)`, `parseInt(text)`, `toString(radix)`
--   TokenId (toTokenId, tokenIdToNftImageFileName, tokenIdToNftMetadataFileName):
--     low-code-nft-marketplace/common-ui/src/models/Cis2Client.ts
--     low-code-nft-marketplace/common-ui/src/models/Utils.ts
--   Client (initContract, updateContract and the polling):
--     low-code-nft-marketplace/common-ui/src/models/ConcordiumContractClient.ts
--   Market.MarketClient (add, transfer), Market.Listing (list, invokeContract):
--     low-code-nft-marketplace/common-ui/src/models/MarketplaceClient.ts
--     low-code-nft-marketplace/common-ui/src/models/ConcordiumContractClient.ts
--   Mint.MintCall (mint):
--     low-code-nft-marketplace/common-ui/src/models/Cis2Client.ts
--   Mint.MintPage:
--     low-code-nft-marketplace/market-ui/src/pages/MintPage.tsx
--   Mint.Pinata:
--     low-code-nft-marketplace/market-ui/src/components/ConnectPinata.tsx
--     low-code-nft-marketplace/market-ui/src/components/ui/UploadFiles.tsx
--   Mint.PrepareOrAdd, Mint.Prepare, Mint.BatchAdd, Mint.BatchMint:
--     low-code-nft-marketplace/market-ui/src/components/cis2/Cis2BatchMetadataPrepareOrAdd.tsx
--     low-code-nft-marketplace/market-ui/src/components/cis2/Cis2BatchMetadataPrepare.tsx
--     low-code-nft-marketplace/market-ui/src/components/cis2/Cis2BatchMetadataAdd.tsx
--     low-code-nft-marketplace/market-ui/src/components/cis2/Cis2BatchMint.tsx
--   Mint.ItemPrepare, Mint.ItemAdd, Mint.LazyMetadata, Mint.Cards:
--     low-code-nft-marketplace/market-ui/src/components/cis2/Cis2BatchItemMetadataPrepare.tsx
--     low-code-nft-marketplace/market-ui/src/components/cis2/Cis2BatchItemMetadataAdd.tsx
--     low-code-nft-marketplace/market-ui/src/components/cis2/LazyCis2Metadata.tsx
--     low-code-nft-marketplace/market-ui/src/components/cis2/GetTokenIdCardStep.tsx
--     low-code-nft-marketplace/market-ui/src/components/cis2/GetQuantityCardStep.tsx
--   Market.SellPage:
--     low-code-nft-marketplace/market-ui/src/pages/SellPage.tsx
--   Market.FindInstance, Market.BalanceOf:
--     low-code-nft-marketplace/market-ui/src/components/cis2/Cis2FindInstance.tsx
--     low-code-nft-marketplace/market-ui/src/components/cis2/Cis2BalanceOf.tsx
--     low-code-nft-marketplace/market-ui/src/components/cis2/Cis2OperatorOf.tsx
--     low-code-nft-marketplace/market-ui/src/components/cis2/Cis2UpdateOperator.tsx
--   Market.AddForm, Market.TransferDialog:
--     low-code-nft-marketplace/market-ui/src/components/MarketplaceAdd.tsx
--     low-code-nft-marketplace/market-ui/src/components/MarketplaceTransferDialog.tsx
--   Market.Instances:
--     low-code-nft-marketplace/market-ui/src/components/MarketplaceContractInit.tsx
--     low-code-nft-marketplace/market-ui/src/components/ContractFindInstance.tsx
--     low-code-nft-marketplace/market-ui/src/components/cis2/Cis2Init.tsx
--   DryRun: what the calls of contracts share (simulate, then send)
--     trackAndTrace/frontend/src/track_and_trace_contract.tsx
--     sponsoredTransactionsAuction/frontend/src/auction_contract.tsx
--     sponsoredTransactionsAuction/frontend/src/cis2_token_contract.tsx
--   Trace.Contract (createItem, removeRole, updateStateMachine, addRole, nonceOf):
--     trackAndTrace/frontend/src/track_and_trace_contract.tsx
--   Trace.TokenIdU64 (ToTokenIdU64, FromTokenIdU64): trackAndTrace/frontend/src/utils.ts
--   Trace.Forms, Trace.CreatedItem:
--     trackAndTrace/frontend/src/components/AdminChangeRoles.tsx
--     trackAndTrace/frontend/src/components/AddTransitionRule.tsx
--     trackAndTrace/frontend/src/components/AdminCreateItem.tsx
--   Trace.ChangeStatus: trackAndTrace/frontend/src/components/ChangeItemStatus.tsx
--   Trace.Explorer: trackAndTrace/frontend/src/components/Explorer.tsx
--   Faucet.PostUrl (extractITweetdFromUrl): testnet-faucet/src/lib/utils.ts
--   Faucet.UsageLimit (checkUsageLimit, getLatestTransactions):
--     testnet-faucet/src/lib/checkUsageLimit.ts, testnet-faucet/src/lib/getLatestTransactions.ts
--     with the specification in Faucet.UsageLimit.Ledger and Faucet.UsageLimit.Runs
--   Faucet.Claim (the handlers of the server): testnet-faucet/src/pages/api and
--     testnet-faucet/src/lib
--   Faucet.Page: testnet-faucet/src/pages/index.tsx
--   Sponsored.Requests (the payloads, the signing and the two submissions):
--     sponsoredTransactions/frontend/src/utils.ts
--     sponsoredTransactions/frontend/src/SponsoredTransactions.tsx
--   Sponsored.Page (the state of the page, its inputs, effects and buttons):
--     sponsoredTransactions/frontend/src/SponsoredTransactions.tsx
--   Auction.Contracts (addItem, viewItemState, mint):
--     sponsoredTransactionsAuction/frontend/src/auction_contract.tsx
--     sponsoredTransactionsAuction/frontend/src/cis2_token_contract.tsx
--   Auction.TokenId, Auction.Forms:
--     sponsoredTransactionsAuction/frontend/src/components/MintTokens.tsx
--     sponsoredTransactionsAuction/frontend/src/components/AddItemToAuction.tsx
--     sponsoredTransactionsAuction/frontend/src/components/ViewItem.tsx
--   Auction.Bid (signing and submitting a bid, submitBid):
--     sponsoredTransactionsAuction/frontend/src/components/Bid.tsx
--     sponsoredTransactionsAuction/frontend/src/utils.ts
--
-- Fuel. `Client.wait` polls without a bound in the program; the model takes fuel, and a promise
-- that is still waiting when it has run out is `none`. Fuel above the number of pending reports
-- is enough. `Js.print_digits` has the number itself as fuel, which is more than it has digits.
--
-- Parameters. The wallet, generated contract clients, the explorer, the post service, clocks, the
-- node, the SDK's contract objects and its check of CCD amounts, the IPFS service and the hash are
-- arguments of the definitions that use them.
--
-- Not modelled. Rendering and its styling, the lists of tokens and the application shell; the
-- order in which JavaScript lists keys that look like integers; numbers above 2^53, on which
-- `parseInt` rounds; the delay between two polls; defaults of the energy, which are arguments.
-- Local time of the faucet's clock is taken to be without a change to or from summer time, and its
-- limit to be a natural number of hours. Of the other programs of the repository nothing is modelled.
pub mod Common
pub mod Js
pub mod TokenId
pub mod Client
pub mod Mint
pub mod Market
pub mod DryRun
pub mod Trace
pub mod Faucet
pub mod Sponsored
pub mod Auction
