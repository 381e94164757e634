-- ===== src/Trace/ChangeStatus/Tests.antt =====
-- A change of status at a concrete wallet and backend.
use concordium_dapp_examples.Common.{
  ◌+◌, ◌*◌, ◌≡◌, refl, ◌∷◌, true, none, some, Text, codes, fulfilled,
}
use concordium_dapp_examples.Js.{bigint}
use concordium_dapp_examples.Trace.TokenIdU64.{to_token_id_u64}
use concordium_dapp_examples.Trace.Contract.{Status}
use concordium_dapp_examples.Trace.Contract.Status.{sold}
use concordium_dapp_examples.Trace.ChangeStatus.{
  Environment, State, Submission, succeeded, on_submit,
}
use concordium_dapp_examples.Trace.ChangeStatus.Consistency.{IsSigned, on_submit-IsSigned}

abbrev environment : Environment
environment = record {
  syntax_error = codes "Cannot convert to a BigInt";
  create_parameter = λ p. fulfilled p.item_id;
  create_message = λ m. fulfilled (m.nonce ∷ m.payload);
  sign_message = λ account message. fulfilled (codes "signature");
  iso_string = λ t. codes "tomorrow";
  hex = λ bytes. bytes;
  post = λ s. fulfilled (succeeded (fulfilled (codes "hash")));
}

abbrev shown : State
shown = record { tx_hash = none; error = none }

abbrev posted : Submission
posted = record {
  signer = codes "me";
  nonce = 3;
  signature = codes "signature";
  expiry_time = codes "tomorrow";
  parameter = codes "0c00000000000000";
}

on_submit-IsSigned_example :
    (signer : Text) × (status : Status) × (item : Text) × (true ≡ true)
    × (some (codes "me") ≡ some signer)
    × (some sold ≡ some status)
    × (some (codes "12") ≡ some item)
    × IsSigned environment signer status item
        (1000 + 86400 * 1000)
        3
        (on_submit environment 1000 true
          (some (codes "me"))
          (some sold)
          (some (codes "12"))
          3
          shown)
        posted
unfolding on_submit bigint to_token_id_u64
on_submit-IsSigned_example =
    on_submit-IsSigned environment 1000 true (some (codes "me")) (some sold) (some (codes "12")) 3
      shown posted refl
