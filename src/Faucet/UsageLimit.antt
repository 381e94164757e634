-- ===== src/Faucet/UsageLimit.antt =====
-- testnet-faucet/src/lib: getLatestTransactions.ts and checkUsageLimit.ts. The explorer, the clock
-- and the environment variables are parameters; times are whole seconds. A limit that is not a
-- number or 0 is falsy, and is 0 here.
pub mod Ledger
pub mod Runs
mod Tests
use concordium_dapp_examples.Common.{
  ℕ, ◌+◌, ◌*◌, ◌++◌, Bool, true, false, ◌&&◌, List, [], ◌∷◌, Option, none, some, map, Text, codes,
  Settled, fulfilled, rejected, ◌>>=◌, ltb, ◌==◌, eq_text, is_empty, ◌||◌, if◌then◌else◌,
}
use concordium_dapp_examples.Js.{to_string}

-- `PartialTransaction`
pub record PartialTransaction : Type 0 where
  pub block_time : ℕ
  pub transaction_hash : Text
  pub transfer_destination : Option Text

-- An entry of the explorer's answer, with `details.transferDestination`.
pub record Transaction : Type 0 where
  pub block_time : ℕ
  pub transaction_hash : Text
  pub destination : Option Text

-- The explorer's answer: `statusText` of a refusal, or the parsed body.
pub data ExplorerResponse : Type 0 where
  refused : Text → ExplorerResponse
  answered : Settled (List Transaction) → ExplorerResponse

-- `process.env`, where an unset variable is empty, and `fetch`.
pub record Explorer : Type 0 where
  pub explorer_api_url : Text
  pub sender_address : Text
  pub fetch : Text → Settled ExplorerResponse

-- `({ blockTime, transactionHash, details }) => …`
unfoldable pub to_partial : Transaction → PartialTransaction
to_partial t = record {
  block_time = t.block_time;
  transaction_hash = t.transaction_hash;
  transfer_destination = t.destination;
}

pub latest_transactions_path : Text → ℕ → Text
latest_transactions_path sender limit =
    codes "/accTransactions/"
    ++ (sender
        ++ (codes "?limit="
            ++ (to_string 10 limit ++ codes "&order=descending&includeRawRejectReason")))

read_response : ExplorerResponse → Settled (List PartialTransaction)
unfolding to_partial
read_response (refused status) = rejected (codes "Failed to fetch transactions: " ++ status)
read_response (answered body) = do transactions ← body; fulfilled (map to_partial transactions)

unfoldable pub get_latest_transactions : Explorer → ℕ → Settled (List PartialTransaction)
unfolding latest_transactions_path read_response
get_latest_transactions e limit =
    if is_empty e.sender_address || is_empty e.explorer_api_url
    then rejected (codes "EXPLORER_API_URL, SENDER_ADDRESS env vars undefined.")
    else (e.fetch (e.explorer_api_url ++ latest_transactions_path e.sender_address limit)
        >>= read_response)

is_receiver : Text → Option Text → Bool
is_receiver receiver none = false
is_receiver receiver (some destination) = eq_text receiver destination

-- `Number(blockTime) > limitDate`, where the limit date is `limit` hours before now.
is_recent : ℕ → ℕ → ℕ → Bool
is_recent limit now block_time = ltb now (block_time + 3600 * limit)

-- The loop, with `isAllowed`.
unfoldable pub scan : ℕ → ℕ → Text → Bool → List PartialTransaction → Bool
unfolding is_receiver is_recent
scan limit now receiver is_allowed [] = is_allowed
scan limit now receiver is_allowed (t ∷ l) =
    scan limit now receiver
      (if is_receiver receiver t.transfer_destination
        then (if is_recent limit now t.block_time then false else is_allowed)
        else is_allowed)
      l

unfoldable pub check_usage_limit : Explorer → ℕ → ℕ → Text → Settled Bool
unfolding get_latest_transactions scan
check_usage_limit e usage_limit now receiver =
    if usage_limit == 0
    then rejected (codes "NEXT_PUBLIC_USAGE_LIMIT_IN_HOURS env var undefined.")
    else (get_latest_transactions e 1000 >>= λ l. fulfilled (scan usage_limit now receiver true l))
