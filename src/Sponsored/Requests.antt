-- ===== src/Sponsored/Requests.antt =====
-- sponsoredTransactions/frontend/src/utils.ts, and the payloads of SponsoredTransactions.tsx: what is
-- checked before a message is signed and before a signature is submitted. `Number(text)`, with NaN as
-- `none`, the serialisation, the wallet and the backend are parameters.
pub mod Exactly
mod Tests
use concordium_dapp_examples.Common.{
  ℕ, ◌++◌, Bool, true, false, not, List, [], ◌∷◌, Option, none, some, Text, codes, Settled,
  fulfilled, rejected, ◌>>=◌, ◌==◌, is_empty, length, if◌then◌else◌,
}

-- `if (test) throw new Error(message)`
abbrev refuse_if : Bool → Text → Settled (Unit {0})
refuse_if true message = rejected message
refuse_if false message = fulfilled tt

infixl 5 ◌>>◌
abbrev ◌>>◌ {ℓ} : {B : Type ℓ} → Settled (Unit {0}) → Settled B → Settled B
m >> k = m >>= λ _. k

abbrev number_or : {N : Type 0} → Option N → Text → Settled N
number_or none message = rejected message
number_or (some n) message = fulfilled n

-- `text.length !== n`
has_other_length : Text → ℕ → Bool
has_other_length text n = not (length text == n)

-- The bodies of the two requests.
pub data Request (N : Type 0) : Type 0 where
  update_operator :
      (signer : Text) (nonce : N) (signature operator : Text) (add_operator : Bool)
      (timestamp : Text)
      → Request N
  transfer : (signer : Text) (nonce : N) (signature token_id from to timestamp : Text) → Request N

-- The answer of the backend: the body of an error as `JSON.stringify` shows it, or the field
-- `tx_hash` of the body, if the body is not falsy.
pub data Response : Type 0 where
  failed : Settled Text → Response
  succeeded : Settled (Option Text) → Response

-- What is sent to the backend, and what the promise settles with.
pub record Submitted (N : Type 0) : Type 0 where
  pub posted : Option (Request N)
  pub answer : Settled Text

read_body : Text → Option Text → Settled Text
read_body message none = rejected message
read_body message (some hash) = fulfilled hash

read_response : Text → Response → Settled Text
unfolding read_body
read_response message (failed body) = do error ← body; rejected (message ++ (codes ": " ++ error))
read_response message (succeeded body) = do hash ← body; read_body message hash

module _ {N : Type 0} (number : Text → Option N) (backend : Request N → Settled Response) where
  submit : Text → Settled (Request N) → Submitted N
  unfolding read_response
  submit message (rejected e) = record { posted = none; answer = rejected e }
  submit message (fulfilled r) = record {
    posted = some r;
    answer = backend r >>= read_response message;
  }

  checked_update_operator : Text → Text → Text → Text → Text → Bool → Settled (Request N)
  unfolding has_other_length
  checked_update_operator signer nonce signature expiry operator add_operator = do
    refuse_if (is_empty signer) (codes "Insert a signer address.")
    refuse_if (has_other_length signer 50) (codes "Signer address needs to have 50 digits.")
    refuse_if (is_empty nonce) (codes "Insert a nonce.")
    n ← number_or (number nonce) (codes "Your nonce needs to be a number.")
    refuse_if (is_empty signature) (codes "Insert a signature.")
    refuse_if (has_other_length signature 128) (codes "Signature needs to have 128 digits.")
    refuse_if (is_empty operator) (codes "Insert an operator address.")
    refuse_if (has_other_length operator 50) (codes "Operator address needs to have 50 digits.")
    fulfilled (update_operator signer n signature operator add_operator expiry)

  unfoldable pub submit_update_operator : Text → Text → Text → Text → Text → Bool → Submitted N
  unfolding submit checked_update_operator
  submit_update_operator signer nonce signature expiry operator add_operator =
      submit (codes "Unable to submit update operator")
        (checked_update_operator signer nonce signature expiry operator add_operator)

  checked_transfer : Text → Text → Text → Text → Text → Text → Text → Settled (Request N)
  unfolding has_other_length
  checked_transfer signer nonce signature expiry token_id from to = do
    refuse_if (is_empty signer) (codes "Insert an signer address.")
    refuse_if (has_other_length signer 50) (codes "Signer address needs to have 50 digits.")
    refuse_if (is_empty nonce) (codes "Insert a nonce.")
    n ← number_or (number nonce) (codes "Your nonce needs to be a number.")
    refuse_if (is_empty signature) (codes "Insert a signature.")
    refuse_if (has_other_length signature 128) (codes "Signature needs to have 128 digits.")
    refuse_if (is_empty token_id) (codes "Insert a tokenID.")
    refuse_if (has_other_length token_id 8) (codes "TokenID needs to have 8 digits.")
    refuse_if (is_empty from) (codes "Insert an `from` address.")
    refuse_if (has_other_length from 50) (codes "`From` address needs to have 50 digits.")
    refuse_if (is_empty to) (codes "Insert a `to` address.")
    refuse_if (has_other_length to 50) (codes "`To` address needs to have 50 digits.")
    fulfilled (transfer signer n signature token_id from to expiry)

  unfoldable pub submit_transfer : Text → Text → Text → Text → Text → Text → Text → Submitted N
  unfolding submit checked_transfer
  submit_transfer signer nonce signature expiry token_id from to =
      submit (codes "Unable to submit transfer")
        (checked_transfer signer nonce signature expiry token_id from to)

-- What is serialised for a message. The amount of a transfer is always 1, and its data empty.
pub data Payload : Type 0 where
  transfer_of : (token_id from to : Text) → Payload
  update_of : (operator : Text) (add_operator : Bool) → Payload

-- A payload in hexadecimal digits, or the message of an alert and the empty text; serialising may
-- throw as well.
pub data Generated : Type 0 where
  hex : Text → Generated
  alerted : Text → Generated
  threw : Text → Generated

generated : Settled (Settled Text) → Generated
generated (rejected message) = alerted message
generated (fulfilled (rejected e)) = threw e
generated (fulfilled (fulfilled payload)) = hex payload

module _ {N : Type 0} (number : Text → Option N) (serialize : Payload → Settled Text) where
  unfoldable pub generate_transfer_payload : Text → Text → Text → Text → Generated
  unfolding has_other_length generated
  generate_transfer_payload nonce token_id from to = generated (do
    refuse_if (is_empty nonce) (codes "Insert a nonce.")
    n ← number_or (number nonce) (codes "Your nonce needs to be a number.")
    refuse_if (is_empty token_id) (codes "Insert a tokenID.")
    refuse_if (has_other_length token_id 8) (codes "TokenID needs to have 8 digits.")
    refuse_if (is_empty from) (codes "Insert an `from` address.")
    refuse_if (has_other_length from 50) (codes "`From` address needs to have 50 digits.")
    refuse_if (is_empty to) (codes "Insert an `to` address.")
    refuse_if (has_other_length to 50) (codes "`To` address needs to have 50 digits.")
    fulfilled (serialize (transfer_of token_id from to)))

  unfoldable pub generate_update_operator_payload : Text → Text → Bool → Generated
  unfolding has_other_length generated
  generate_update_operator_payload nonce operator add_operator = generated (do
    refuse_if (is_empty nonce) (codes "Insert a nonce.")
    n ← number_or (number nonce) (codes "Your nonce needs to be a number.")
    refuse_if (is_empty operator) (codes "Insert an operator address.")
    refuse_if (has_other_length operator 50) (codes "Operator address needs to have 50 digits.")
    fulfilled (serialize (update_of operator add_operator)))
