-- ===== src/Sponsored/Page/Tests.antt =====
-- Signing and submitting with concrete fields.
use concordium_dapp_examples.Common.{
  ℕ, ◌≡◌, refl, ◌++◌, true, Option, some, Text, codes, Settled, fulfilled,
}
use concordium_dapp_examples.Js.{all_digits}
use concordium_dapp_examples.TokenId.{replicate}
use concordium_dapp_examples.Sponsored.Requests.{
  Request, update_operator, Response, succeeded, Payload, transfer_of, update_of,
  generate_update_operator_payload, submit_update_operator,
}
use concordium_dapp_examples.Sponsored.Page.{
  State, initial_state, change_operator, change_signer, on_signature, Message, sign_clicked,
  submit_clicked,
}
use concordium_dapp_examples.Sponsored.Page.Signing.{Repeats, sign_clicked-Repeats}

abbrev decimal : Text → Option ℕ
decimal t = all_digits 10 0 t

abbrev backend : Request ℕ → Settled Response
backend r = fulfilled (succeeded (fulfilled (some (codes "hash"))))

abbrev serialize : Payload → Settled Text
serialize (transfer_of token_id from to) = fulfilled (token_id ++ (from ++ to))
serialize (update_of operator add) = fulfilled operator

abbrev iso : ℕ → Text
iso t = codes "tomorrow"

abbrev bob : Text
bob = replicate 50 b'b'

abbrev signature : Text
signature = replicate 128 b'0'

abbrev alice : Text
alice = replicate 50 b'a'

abbrev filled : State
filled = record initial_state { operator = bob; nonce = codes "7" }

abbrev message : Message ℕ
message = record {
  is_update_operator = true;
  nonce = some 7;
  expiry = codes "tomorrow";
  account = codes "me";
  payload = bob;
}

sign_clicked-Repeats_example :
    Repeats serialize message signature
      (update_operator alice 7 signature bob true (codes "tomorrow"))
unfolding sign_clicked submit_clicked change_signer on_signature all_digits
    generate_update_operator_payload submit_update_operator
sign_clicked-Repeats_example =
    sign_clicked-Repeats decimal iso serialize backend 0 (codes "me") signature alice filled message
      (update_operator alice 7 signature bob true (codes "tomorrow")) refl refl

abbrev signed : State
signed = record filled { signature = signature; signer = alice; expiry_time = codes "tomorrow" }

another_operator :
    (submit_clicked decimal iso backend (change_operator alice signed)).1.posted
    ≡ some (update_operator alice 7 signature alice true (codes "tomorrow"))
unfolding submit_clicked submit_update_operator change_operator all_digits
another_operator = refl
