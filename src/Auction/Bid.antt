-- ===== src/Auction/Bid.antt =====
-- sponsoredTransactionsAuction/frontend/src/components/Bid.tsx and utils.ts: signing a transfer of
-- tokens to the auction, which is a bid, and handing it to the backend. The node, the wallet, the
-- clock, the serialisations and the backend are parameters.
pub mod Signing
mod Tests
use concordium_dapp_examples.Common.{
  ℕ, ◌+◌, ◌*◌, ◌++◌, Bool, true, false, List, [], ◌∷◌, Option, none, some, Text, codes, Settled,
  fulfilled, rejected, ◌>>=◌, if◌then◌else◌,
}
use concordium_dapp_examples.Auction.TokenId.{Number, is_nan, hex_string}

-- The transfer that is serialised; it always goes to `bid` of the auction.
pub record Transfer : Type 0 where
  pub amount : Text
  pub additional_data : Text
  pub from : Text
  pub token_id : Text

-- The arguments of `signCIS3Message` that are not fixed.
pub record Message : Type 0 where
  pub nonce : Number
  pub expiry : Text
  pub account : Text
  pub payload : Text

-- The body of the request to the backend.
pub record Request : Type 0 where
  pub signer : Text
  pub nonce : Number
  pub signature : Text
  pub token_id : Option Text
  pub from : Text
  pub token_amount : Text
  pub item_index : Number
  pub expiry : Text

-- The answer of the backend: the body of an error as it is printed, or the hash.
pub data Response : Type 0 where
  failed : Settled Text → Response
  succeeded : Settled Text → Response

pub record Environment : Type 0 where
  pub number : Text → Number
  pub iso_string : ℕ → Text
  pub view_item_state : Number → Settled Text
  pub serialize_index : Number → Settled (List ℕ)
  pub serialize_transfer : Transfer → Settled Text
  pub post : Request → Settled Response
  pub from_hex_string : Text → Settled Text

-- The state of the component, with the fields of its two forms, and the hash and the error at the
-- top of the page.
pub record State : Type 0 where
  pub signature : Option Text
  pub signing_error : Option Text
  pub expiry_time : Text
  pub token_id : Option Text
  pub show_message : Bool
  pub nonce : Text
  pub token_amount : Text
  pub item_index : Text
  pub signer : Text
  pub tx_hash : Option Text
  pub transaction_error : Option Text

abbrev pub initial_state : State
initial_state = record {
  signature = none;
  signing_error = none;
  expiry_time = [];
  token_id = none;
  show_message = false;
  nonce = [];
  token_amount = [];
  item_index = [];
  signer = [];
  tx_hash = none;
  transaction_error = none;
}

-- The fields, which change nothing else.
unfoldable pub change_nonce : Text → State → State
change_nonce value s = record s { nonce = value }

unfoldable pub change_token_amount : Text → State → State
change_token_amount value s = record s { token_amount = value }

unfoldable pub change_item_index : Text → State → State
change_item_index value s = record s { item_index = value }

unfoldable pub change_signer : Text → State → State
change_signer value s = record s { signer = value }

module _ (env : Environment) where
  abbrev wrap_error : {A : Type 0} → Settled A → Settled A
  wrap_error (fulfilled a) = fulfilled a
  wrap_error (rejected message) =
      rejected (codes "Generating transfer message failed. Orginal error: " ++ message)

  -- The token that the item is up for, if there is one.
  unfoldable pub item_token : Text → Settled Text
  item_token index =
      if is_nan (env.number index)
      then rejected (codes "ItemIndex is NaN.")
      else env.view_item_state (env.number index)

  unfoldable pub transfer_payload : Text → Text → Text → Text → Settled Text
  transfer_payload account amount index token = do
    bytes ← env.serialize_index (env.number index)
    env.serialize_transfer (record {
      amount = amount;
      additional_data = hex_string bytes;
      from = account;
      token_id = token;
    })

  -- What is stored of the item's token, and the payload.
  unfoldable pub generate_transfer_payload :
      Text → Text → Text → Settled Text → Option Text × Settled Text
  unfolding transfer_payload
  generate_transfer_payload account amount index (rejected message) =
      (none, wrap_error (rejected message))
  generate_transfer_payload account amount index (fulfilled token) =
      (some token, wrap_error (transfer_payload account amount index token))

  set_token : Option Text → State → State
  set_token none s = s
  set_token (some token) s = record s { token_id = some token }

  message_of : Text → Text → State → Message
  message_of account payload s = record {
    nonce = env.number s.nonce;
    expiry = s.expiry_time;
    account = account;
    payload = payload;
  }

  -- The wallet is asked to sign the payload, or the error is shown.
  after_generated : Text → State → Settled Text → State × Option Message
  unfolding message_of
  after_generated account s (rejected message) = (record s { signing_error = some message }, none)
  after_generated account s (fulfilled payload) = (s, some (message_of account payload s))

  started_signing : ℕ → State → State
  started_signing now s = record s {
    signing_error = none;
    signature = none;
    expiry_time = env.iso_string (now + 86400 * 1000);
  }

  with_item : Text → State → Option Text × Settled Text → State × Option Message
  unfolding set_token after_generated
  with_item account s (token, payload) = after_generated account (set_token token s) payload

  -- A click on the first form at `now` in milliseconds, up to the question to the wallet.
  unfoldable pub on_submit_signing : ℕ → Option Text → State → State × Option Message
  unfolding started_signing with_item generate_transfer_payload
  on_submit_signing now none s = (started_signing now s, none)
  on_submit_signing now (some []) s = (started_signing now s, none)
  on_submit_signing now (some (c ∷ account)) s = with_item (c ∷ account) (started_signing now s) (
      generate_transfer_payload (c ∷ account) s.token_amount s.item_index (item_token s.item_index))

  read_body : Text → Settled Text
  read_body [] = rejected (codes "Unable to submit bid")
  read_body (c ∷ hash) = env.from_hex_string (c ∷ hash)

  read_response : Response → Settled Text
  unfolding read_body
  read_response (failed body) = do error ← body; rejected (codes "Unable to submit bid: " ++ error)
  read_response (succeeded body) = do hash ← body; read_body hash

  unfoldable pub submit_bid : Request → Settled Text
  unfolding read_response
  submit_bid request = do response ← env.post request; read_response response

  request_of : Text → Text → State → Request
  request_of signature account s = record {
    signer = s.signer;
    nonce = env.number s.nonce;
    signature = signature;
    token_id = s.token_id;
    from = account;
    token_amount = s.token_amount;
    item_index = env.number s.item_index;
    expiry = s.expiry_time;
  }

  -- `if (accountAddress && signature)`
  with_signature : Option Text → Text → State → Option Request
  unfolding request_of
  with_signature none account s = none
  with_signature (some []) account s = none
  with_signature (some (c ∷ signature)) account s = some (request_of (c ∷ signature) account s)

  cleared : State → State
  cleared s = record s { show_message = false; tx_hash = none; transaction_error = none }

  -- A click on the second form: the request that is posted, if any.
  unfoldable pub on_submit_bid : Option Text → State → State × Option Request
  unfolding with_signature cleared
  on_submit_bid none s = (cleared s, none)
  on_submit_bid (some []) s = (cleared s, none)
  on_submit_bid (some (c ∷ account)) s = (cleared s, with_signature s.signature (c ∷ account) s)

-- The answer of the wallet.
unfoldable pub on_signature : Settled Text → State → State
on_signature (fulfilled signature) s = record s { signature = some signature }
on_signature (rejected message) s = record s { signing_error = some message }

-- The answer to a bid; a success clears the signature and the fields of both forms.
unfoldable pub on_bid : Settled Text → State → State
on_bid (fulfilled hash) s = record s {
  signature = none;
  nonce = [];
  token_amount = [];
  item_index = [];
  signer = [];
  show_message = true;
  tx_hash = some hash;
}
on_bid (rejected message) s = record s { show_message = true; transaction_error = some message }
