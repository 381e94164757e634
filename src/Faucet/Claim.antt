-- ===== src/Faucet/Claim.antt =====
-- testnet-faucet/src/pages/api: validateAndClaim.ts with lib/createAccountTrasantion.ts,
-- lib/createGPRCClient.ts and lib/getSenderAccountSigner.ts, usageLimit.ts and latestTransactions.ts.
-- The post service, the node and the signature are parameters.
pub mod Payouts
mod Tests
use concordium_dapp_examples.Common.{
  ℕ, ◌++◌, Bool, true, false, ◌&&◌, ◌||◌, not, List, [], ◌∷◌, Option, none, some, Text, codes,
  Settled, fulfilled, rejected, ◌>>=◌, ltb, ◌==◌, eq_text, is_empty, if◌then◌else◌,
}
use concordium_dapp_examples.Js.{to_string}
use concordium_dapp_examples.Faucet.UsageLimit.{
  Explorer, PartialTransaction, check_usage_limit, get_latest_transactions,
}

starts_with : Text → Text → Bool
starts_with [] s = true
starts_with (p ∷ q) [] = false
starts_with (p ∷ q) (c ∷ s) = (p == c) && starts_with q s

-- `text.includes(part)`
unfoldable pub includes : Text → Text → Bool
unfolding starts_with
includes part [] = is_empty part
includes part (c ∷ s) = starts_with part (c ∷ s) || includes part s

-- `{ header, payload, type }` of a transfer; the expiry is minutes from now.
pub record Transfer (Address : Type 0) : Type 0 where
  pub sender : Address
  pub nonce : ℕ
  pub expiry_minutes : ℕ
  pub amount : Text
  pub to_address : Address

-- The server's environment: variables, where an unset one is empty, and services.
pub record Environment (Address : Type 0) : Type 0 where
  pub explorer : Explorer
  pub usage_limit : ℕ
  pub now : ℕ
  pub node_port : Text
  pub node_url : Text
  pub sender_private_key : Text
  pub ccd_default_amount : Text
  pub tweet_details : Text → Settled (Option Text)
  pub from_base58 : Text → Settled Address
  pub next_nonce : Address → Settled ℕ
  pub sign : Transfer Address → Settled Text
  pub send : Transfer Address → Text → Settled Text
  pub show_error : Text → Text

pub data Body : Type 0 where
  error : Text → Body
  transaction_hash : Text → Body
  is_allowed : Bool → Body
  transactions : List PartialTransaction → Body

pub record Reply : Type 0 where
  pub status : ℕ
  pub body : Body

abbrev reply_error : ℕ → Text → Reply
reply_error status message = record { status = status; body = error message }

-- What a request brings about: the transfers that reach the node, and the reply; `none` is a handler
-- that throws.
pub record Served (Address : Type 0) : Type 0 where
  pub sent : List (Transfer Address)
  pub reply : Option Reply

-- `${usageLimit > 1 ? 'hours' : 'hour'}`
hours : ℕ → Text
hours usage_limit = if ltb 1 usage_limit then codes "hours" else codes "hour"

module _ {Address : Type 0} (env : Environment Address) where
  -- `createGRPCNodeClient`; a client has no state of its own.
  unfoldable pub create_client : Settled (Unit {0})
  create_client =
      if is_empty env.node_port || is_empty env.node_url
      then rejected (codes "NDDE_PORT or NODE_URL env vars not defined.")
      else fulfilled tt

  unfoldable pub get_sender_account_signer : Settled (Unit {0})
  get_sender_account_signer =
      if is_empty env.sender_private_key
      then rejected (codes "SENDER_PRIVATE_KEY env var undefined")
      else fulfilled tt

  create_transfer : Text → Text → Settled (Transfer Address)
  create_transfer sender receiver = do
    sender_address ← env.from_base58 sender
    nonce ← env.next_nonce sender_address
    to_address ← env.from_base58 receiver
    fulfilled (record {
      sender = sender_address;
      nonce = nonce;
      expiry_minutes = 60;
      amount = env.ccd_default_amount;
      to_address = to_address;
    })

  unfoldable pub create_account_transaction : Text → Text → Settled (Transfer Address)
  unfolding create_transfer
  create_account_transaction sender receiver =
      if is_empty env.ccd_default_amount
      then rejected (codes "CCD_DEFAULT_AMOUNT env var undefined")
      else create_transfer sender receiver

  abbrev unsent : ℕ → Text → Served Address
  unsent status message = record { sent = []; reply = some (reply_error status message) }

  -- `catch`
  unexpected : Text → Served Address
  unexpected e = unsent 500 (codes "An unexpected error has occurred: " ++ env.show_error e)

  unfoldable pub answer_of : Settled Text → Reply
  answer_of (fulfilled hash) = record { status = 200; body = transaction_hash hash }
  answer_of (rejected e) =
      reply_error 500 (codes "An unexpected error has occurred: " ++ env.show_error e)

  -- The transaction with its signature.
  prepared : Text → Settled (Transfer Address × Text)
  unfolding create_client get_sender_account_signer create_account_transaction
  prepared receiver = do
    client ← create_client
    signer ← get_sender_account_signer
    transfer ← create_account_transaction env.explorer.sender_address receiver
    signature ← env.sign transfer
    fulfilled (transfer, signature)

  pay_out : Settled (Transfer Address × Text) → Served Address
  unfolding unexpected answer_of
  pay_out (rejected e) = unexpected e
  pay_out (fulfilled (transfer, signature)) = record {
    sent = transfer ∷ [];
    reply = some (answer_of (env.send transfer signature));
  }

  -- `tweetText.includes(receiver) && tweetText.includes(extraKeywordToVerify)`
  unfoldable pub is_valid_post : Text → Text → Bool
  unfolding includes
  is_valid_post receiver text = includes receiver text && includes (codes "Concordium") text

  on_post : Text → Settled (Option Text) → Served Address
  unfolding unexpected pay_out prepared is_valid_post
  on_post receiver (rejected e) = unexpected e
  on_post receiver (fulfilled none) =
      unsent 500 (codes "Unable to retrieve tweet details. The X Post ID might be invalid.")
  on_post receiver (fulfilled (some text)) =
      if is_valid_post receiver text
      then pay_out (prepared receiver)
      else unsent 400 (
          codes
            "X Post verification failed. Please make sure you do not modify the template text and that your address is present.")

  on_limit : Text → Text → Settled Bool → Served Address
  unfolding unexpected on_post hours
  on_limit post_id receiver (rejected e) = unexpected e
  on_limit post_id receiver (fulfilled false) = unsent 401 (
      codes "You already get tokens in the last "
      ++ (to_string 10 env.usage_limit
          ++ (codes " " ++ (hours env.usage_limit ++ codes ". Please try again later."))))
  on_limit post_id receiver (fulfilled true) = on_post receiver (env.tweet_details post_id)

  -- The handler of validateAndClaim.ts.
  unfoldable pub validate_and_claim : Text → Text → Text → Served Address
  unfolding on_limit
  validate_and_claim method post_id receiver =
      if not (eq_text method (codes "POST"))
      then unsent 405 (codes "Method Not Allowed. Please use POST.")
      else if is_empty env.explorer.sender_address
      then record { sent = []; reply = none }
      else if is_empty post_id || is_empty receiver
      then unsent 400 (codes "Missing parameters. Please provide XPostId, and receiver params.")
      else on_limit post_id receiver
          (check_usage_limit env.explorer env.usage_limit env.now receiver)

  -- The handler of usageLimit.ts.
  limit_reply : Settled Bool → Reply
  limit_reply (fulfilled allowed) = record { status = 200; body = is_allowed allowed }
  limit_reply (rejected e) =
      reply_error 500 (codes "An unexpected error has occurred: " ++ env.show_error e)

  unfoldable pub usage_limit : Text → Text → Reply
  unfolding limit_reply
  usage_limit method receiver =
      if not (eq_text method (codes "POST"))
      then reply_error 405 (codes "Method Not Allowed. Please use POST.")
      else if is_empty receiver
      then reply_error 400 (codes "Missing parameters. Please provide and receiver params.")
      else limit_reply (check_usage_limit env.explorer env.usage_limit env.now receiver)

  -- The handler of latestTransactions.ts.
  transactions_reply : Settled (List PartialTransaction) → Reply
  transactions_reply (fulfilled l) = record { status = 200; body = transactions l }
  transactions_reply (rejected e) =
      reply_error 500 (codes "An unexpected error has occurred: " ++ env.show_error e)

  unfoldable pub latest_transactions : Text → Reply
  unfolding transactions_reply
  latest_transactions method =
      if not (eq_text method (codes "GET"))
      then reply_error 405 (codes "Method Not Allowed. Please use GET.")
      else transactions_reply (get_latest_transactions env.explorer 5)
