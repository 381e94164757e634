-- ===== src/Sponsored/Page.antt =====
-- sponsoredTransactions/frontend/src/SponsoredTransactions.tsx: the state of the page and its
-- handlers. The wallet, the backend, the clock and the node are parameters; alerts are left out.
pub mod Signing
mod Tests
use concordium_dapp_examples.Common.{
  ℕ, ◌+◌, ◌*◌, ◌++◌, Bool, true, false, not, List, [], ◌∷◌, Option, none, some, Text, codes,
  Settled, fulfilled, rejected, ◌>>=◌, is_empty,
}
use concordium_dapp_examples.Sponsored.Requests.{
  Request, Response, Submitted, submit_update_operator, submit_transfer, Payload, Generated, hex,
  alerted, threw, generate_transfer_payload, generate_update_operator_payload,
}

pub record State : Type 0 where
  pub is_update_operator_tab : Bool
  pub expiry_time : Text
  pub operator : Text
  pub add_operator : Bool
  pub token_id : Text
  pub to : Text
  pub nonce : Text
  pub from : Text
  pub signer : Text
  pub signature : Text
  pub signing_error : Text
  pub tx_hash : Text
  pub transaction_error : Text
  pub is_waiting_for_transaction : Bool

abbrev pub initial_state : State
initial_state = record {
  is_update_operator_tab = true;
  expiry_time = [];
  operator = [];
  add_operator = true;
  token_id = [];
  to = [];
  nonce = [];
  from = [];
  signer = [];
  signature = [];
  signing_error = [];
  tx_hash = [];
  transaction_error = [];
  is_waiting_for_transaction = false;
}

-- The change handlers of the fields, which change nothing else.
unfoldable pub change_operator : Text → State → State
change_operator value s = record s { operator = value }

unfoldable pub change_token_id : Text → State → State
change_token_id value s = record s { token_id = value }

unfoldable pub change_to : Text → State → State
change_to value s = record s { to = value }

unfoldable pub change_from : Text → State → State
change_from value s = record s { from = value }

unfoldable pub change_nonce : Text → State → State
change_nonce value s = record s { nonce = value }

unfoldable pub change_signer : Text → State → State
change_signer value s = record s { signer = value }

unfoldable pub switch_tab : State → State
switch_tab s = record s {
  is_update_operator_tab = not s.is_update_operator_tab;
  signature = [];
  signing_error = [];
  tx_hash = [];
  transaction_error = [];
  nonce = [];
  signer = [];
  token_id = [];
  from = [];
  to = [];
  operator = [];
}

-- What `signCIS3Message` asks the wallet to sign; the contract is fixed.
pub record Message (N : Type 0) : Type 0 where
  pub is_update_operator : Bool
  pub nonce : Option N
  pub expiry : Text
  pub account : Text
  pub payload : Text

-- The answer of the wallet.
unfoldable pub on_signature : Settled Text → State → State
on_signature (fulfilled signature) s = record s { signature = signature }
on_signature (rejected message) s = record s { signing_error = message }

unfoldable pub submit_disabled : State → Bool
submit_disabled s = is_empty s.signature

on_hash : Text → State → State
on_hash [] s = record s { tx_hash = [] }
on_hash (c ∷ hash) s = record s {
  tx_hash = c ∷ hash;
  signature = [];
  token_id = [];
  from = [];
  to = [];
  operator = [];
  nonce = [];
  signer = [];
}

-- The callbacks of a submission.
unfoldable pub on_submitted : Settled Text → State → State
unfolding on_hash
on_submitted (fulfilled hash) s = record (on_hash hash s) { is_waiting_for_transaction = false }
on_submitted (rejected message) s = record s {
  transaction_error = message;
  is_waiting_for_transaction = false;
}

started : State → State
started s = record s { tx_hash = []; transaction_error = []; is_waiting_for_transaction = true }

-- Minting an own token: the account that is asked to sign, and the callbacks.
unfoldable pub mint_clicked : Text → State → State × Text
unfolding started
mint_clicked account s = (started s, account)

unfoldable pub on_minted : Settled Text → State → State
on_minted (fulfilled hash) s = record s { tx_hash = hash; is_waiting_for_transaction = false }
on_minted (rejected message) s = record s {
  transaction_error = message;
  is_waiting_for_transaction = false;
}

-- The generated message, if its payload is not empty, and what the page shows.
module _ {N : Type 0} (number : Text → Option N) (iso_string : ℕ → Text) where
  message_of : Text → Text → State → Message N
  message_of account payload s = record {
    is_update_operator = s.is_update_operator_tab;
    nonce = number s.nonce;
    expiry = s.expiry_time;
    account = account;
    payload = payload;
  }

  after_generated : Text → Generated → State → State × Option (Message N)
  unfolding message_of
  after_generated account (hex []) s =
      (record s { signing_error = codes "Serialization Error" }, none)
  after_generated account (hex (c ∷ payload)) s = (s, some (message_of account (c ∷ payload) s))
  after_generated account (alerted message) s =
      (record s { signing_error = codes "Serialization Error" }, none)
  after_generated account (threw e) s = (s, none)

  generate : (Payload → Settled Text) → Bool → State → Generated
  generate serialize true s =
      generate_update_operator_payload number serialize s.nonce s.operator s.add_operator
  generate serialize false s =
      generate_transfer_payload number serialize s.nonce s.token_id s.from s.to

  -- A click on the button that generates a signature, at `now` in milliseconds.
  unfoldable pub sign_clicked :
      (Payload → Settled Text) → ℕ → Text → State → State × Option (Message N)
  unfolding after_generated generate
  sign_clicked serialize now account s =
      after_generated account (generate serialize s.is_update_operator_tab s) (record s {
        signing_error = [];
        signature = [];
        expiry_time = iso_string (now + 86400 * 1000);
      })

  submission : (Request N → Settled Response) → Bool → State → Submitted N
  submission backend true s =
      submit_update_operator number backend s.signer s.nonce s.signature s.expiry_time s.operator
        s.add_operator
  submission backend false s =
      submit_transfer number backend s.signer s.nonce s.signature s.expiry_time s.token_id s.from
        s.to

  unfoldable pub submit_clicked : (Request N → Settled Response) → State → State × Submitted N
  unfolding started submission
  submit_clicked backend s = (started s, submission backend s.is_update_operator_tab s)

-- The nonce and the public key of the account.
pub record AccountState (N : Type 0) : Type 0 where
  pub next_nonce : N
  pub next_nonce_error : Text
  pub public_key : Text
  pub public_key_error : Text

-- The answer of `invokeContract`: nothing, a failure, or a return value, if any.
pub data Invocation : Type 0 where
  no_answer failure : Invocation
  success : Option Text → Invocation

returned : Invocation → Option Text
returned no_answer = none
returned failure = none
returned (success none) = none
returned (success (some [])) = none
returned (success (some (c ∷ value))) = some (c ∷ value)

module _ {N : Type 0} (contract_name : Text) (deserialize : Text → Option N) where
  read_nonce : Option Text → Settled N
  read_nonce none = rejected (
      codes "RPC call 'invokeContract' on method '"
      ++ (contract_name ++ codes ".nonceOf' of contract SMART_CONTRACT_INDEX failed"))
  read_nonce (some value) = elim (deserialize value) [
    | none ↦ rejected (
        codes "Deserializing the returnValue from the '"
        ++ (contract_name ++ codes ".nonceOf' method of contract SMART_CONTRACT_INDEX failed"))
    | some nonce ↦ fulfilled nonce
  ]

  unfoldable pub get_nonce_of : Settled Invocation → Settled N
  unfolding returned read_nonce
  get_nonce_of run = do result ← run; read_nonce (returned result)

unfoldable pub on_nonce : {N : Type 0} → N → Settled (Option N) → AccountState N → AccountState N
on_nonce first (fulfilled none) s = record s { next_nonce_error = [] }
on_nonce first (fulfilled (some nonce)) s = record s { next_nonce = nonce; next_nonce_error = [] }
on_nonce first (rejected message) s = record s { next_nonce = first; next_nonce_error = message }

unfoldable pub on_public_key :
    {N : Type 0} → Settled (Option Text) → AccountState N → AccountState N
on_public_key (fulfilled none) s = record s { public_key_error = [] }
on_public_key (fulfilled (some key)) s = record s { public_key = key; public_key_error = [] }
on_public_key (rejected message) s = record s { public_key = []; public_key_error = message }
