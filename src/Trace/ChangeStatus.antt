-- ===== src/Trace/ChangeStatus.antt =====
-- trackAndTrace/frontend/src/components/ChangeItemStatus.tsx: signing a message that changes the
-- status of an item and handing it to the backend, which sends the transaction. The wallet, the
-- backend, the clock and the generated serialisation are parameters.
pub mod Consistency
mod Tests
use concordium_dapp_examples.Common.{
  ℕ, ◌+◌, ◌*◌, ◌++◌, Bool, true, false, List, [], ◌∷◌, Option, none, some, Text, codes, Settled,
  fulfilled, rejected, ◌>>=◌,
}
use concordium_dapp_examples.Js.{bigint}
use concordium_dapp_examples.Trace.TokenIdU64.{to_token_id_u64}
use concordium_dapp_examples.Trace.Contract.{Status}

-- `ChangeItemStatusParameter`; the additional data is always empty.
pub record ChangeItemStatusParameter : Type 0 where
  pub item_id : Text
  pub new_status : Status

abbrev pub Bytes : Type 0
Bytes = List ℕ

-- `SerializationHelperParameter`, without the fixed address of the contract and entry point.
pub record Message : Type 0 where
  pub nonce : ℕ
  pub timestamp : ℕ
  pub payload : Bytes

-- The body of the request to the backend, without its constants.
pub record Submission : Type 0 where
  pub signer : Text
  pub nonce : ℕ
  pub signature : Text
  pub expiry_time : Text
  pub parameter : Text

-- The answer of the backend: the body of an error as `JSON.stringify` shows it, or the hash.
pub data Response : Type 0 where
  failed : Settled Text → Response
  succeeded : Settled Text → Response

pub record Environment : Type 0 where
  pub syntax_error : Text
  pub create_parameter : ChangeItemStatusParameter → Settled Bytes
  pub create_message : Message → Settled Bytes
  pub sign_message : Text → Bytes → Settled Text
  pub iso_string : ℕ → Text
  pub hex : Bytes → Text
  pub post : Submission → Settled Response

pub record State : Type 0 where
  pub tx_hash : Option Text
  pub error : Option Text

-- The effects of a click on the button.
pub record Run : Type 0 where
  pub signed : Option (Text × Bytes)
  pub posted : Option Submission
  pub state : State
  pub thrown : Option Text

module _ (env : Environment) where
  -- The field holds a text at run time, which `BigInt` reads.
  token_id_of : Text → Settled Text
  token_id_of item_id = elim (bigint item_id) [
    | none ↦ rejected env.syntax_error
    | some number ↦ to_token_id_u64 number
  ]

  wrap_error : {A : Type 0} → Settled A → Settled A
  wrap_error (fulfilled a) = fulfilled a
  wrap_error (rejected message) =
      rejected (codes "Generating message failed. Orginal error: " ++ message)

  -- The payload and the message that is signed.
  serialized : Status → Text → ℕ → ℕ → Settled (Bytes × Bytes)
  unfolding token_id_of
  serialized new_status item_id expiry nonce = do
    token_id ← token_id_of item_id
    payload ← env.create_parameter (record { item_id = token_id; new_status = new_status })
    message ← env.create_message (record { nonce = nonce; timestamp = expiry; payload = payload })
    fulfilled (payload, message)

  unfoldable pub generate_message : Option Status → Text → ℕ → ℕ → Settled (Bytes × Bytes)
  unfolding wrap_error serialized
  generate_message none item_id expiry nonce =
      wrap_error (rejected (codes "'newStatus' input field is undefined"))
  generate_message (some new_status) item_id expiry nonce =
      wrap_error (serialized new_status item_id expiry nonce)

  read_hash : Response → Settled Text
  read_hash (failed body) = do
    error ← body
    rejected (codes "Unable to get txHash from backend: " ++ error)
  read_hash (succeeded body) = do
    hash ← body
    elim hash [
      | [] ↦ rejected (codes "Unable to get txHash from backend")
      | c ∷ s ↦ fulfilled (c ∷ s)
    ]

  submission : Text → ℕ → ℕ → Bytes → Text → Submission
  submission account nonce expiry payload signature = record {
    signer = account;
    nonce = nonce;
    signature = signature;
    expiry_time = env.iso_string expiry;
    parameter = env.hex payload;
  }

  show_hash : Settled Text → State → State
  show_hash (fulfilled hash) s = record s { tx_hash = some hash }
  show_hash (rejected message) s = record s { error = some message }

  posted_run : Text → Bytes → Submission → State → Run
  unfolding read_hash show_hash
  posted_run account message body s = record {
    signed = some (account, message);
    posted = some body;
    state = show_hash (env.post body >>= read_hash) s;
    thrown = none;
  }

  after_signing : Text → ℕ → ℕ → Bytes → Bytes → State → Settled Text → Run
  unfolding posted_run submission
  after_signing account nonce expiry payload message s (rejected e) = record {
    signed = some (account, message);
    posted = none;
    state = record s { error = some e };
    thrown = none;
  }
  after_signing account nonce expiry payload message s (fulfilled signature) =
      posted_run account message (submission account nonce expiry payload signature) s

  generated_run : Text → ℕ → ℕ → Settled (Bytes × Bytes) → State → Run
  unfolding after_signing
  generated_run account nonce expiry (rejected e) s = record {
    signed = none;
    posted = none;
    state = record s { error = some e };
    thrown = none;
  }
  generated_run account nonce expiry (fulfilled (payload, message)) s =
      after_signing account nonce expiry payload message s (env.sign_message account message)

  abbrev refuse : Text → State → Run
  refuse message s = record {
    signed = none;
    posted = none;
    state = record s { error = some message };
    thrown = some message;
  }

  not_connected : State → Run
  not_connected s = record {
    signed = none;
    posted = none;
    state = record s {
      error = some (codes "Wallet is not connected. Click 'Connect Wallet' button.");
    };
    thrown = none;
  }

  -- `if (connection && accountAddress) … else …`
  connected_run : Bool → Option Text → Status → Text → ℕ → ℕ → State → Run
  unfolding generated_run not_connected generate_message
  connected_run false account new_status item_id expiry nonce s = not_connected s
  connected_run true none new_status item_id expiry nonce s = not_connected s
  connected_run true (some []) new_status item_id expiry nonce s = not_connected s
  connected_run true (some (d ∷ account)) new_status item_id expiry nonce s =
      generated_run (d ∷ account) nonce expiry
        (generate_message (some new_status) item_id expiry nonce) s

  -- `now` in milliseconds; a signature expires a day later.
  unfoldable pub on_submit : ℕ → Bool → Option Text → Option Status → Option Text → ℕ → State → Run
  unfolding connected_run
  on_submit now connected account none item_id nonce s =
      refuse (codes "'newStatus' input field is undefined") (record s { error = none })
  on_submit now connected account (some new_status) none nonce s =
      refuse (codes "'itemID' input field is undefined") (record s { error = none })
  on_submit now connected account (some new_status) (some item_id) nonce s =
      connected_run connected account new_status item_id (now + 86400 * 1000) nonce
        (record s { error = none })

-- `refreshNonce`: the nonce of the next message, and the error of reading it.
pub record NonceState : Type 0 where
  pub next_nonce : ℕ
  pub next_nonce_error : Option Text

unfoldable pub on_nonce : Settled (Option ℕ) → NonceState → NonceState
on_nonce (fulfilled none) s = record s { next_nonce_error = none }
on_nonce (fulfilled (some nonce)) s = record { next_nonce = nonce; next_nonce_error = none }
on_nonce (rejected message) s = record { next_nonce = 0; next_nonce_error = some message }
