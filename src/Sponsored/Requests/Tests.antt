-- ===== src/Sponsored/Requests/Tests.antt =====
-- Requests with concrete fields.
use concordium_dapp_examples.Common.{
  ℕ, ◌≡◌, ◌↔◌, refl, [], true, false, Option, some, Text, codes, Settled, fulfilled, rejected,
  is_empty, length,
}
use concordium_dapp_examples.Js.{all_digits}
use concordium_dapp_examples.TokenId.{replicate}
use concordium_dapp_examples.Sponsored.Requests.{
  Request, update_operator, transfer, Response, succeeded, submit_update_operator, submit_transfer,
}
use concordium_dapp_examples.Sponsored.Requests.Exactly.{submit_transfer-posted}

abbrev decimal : Text → Option ℕ
decimal t = all_digits 10 0 t

abbrev backend : Request ℕ → Settled Response
backend r = fulfilled (succeeded (fulfilled (some (codes "hash"))))

abbrev alice : Text
alice = replicate 50 b'a'

abbrev bob : Text
bob = replicate 50 b'b'

abbrev signature : Text
signature = replicate 128 b'0'

no_nonce :
    (submit_update_operator decimal backend alice [] signature (codes "tomorrow") bob true).answer
    ≡ rejected (codes "Insert a nonce.")
unfolding submit_update_operator
no_nonce = refl

posted_operator :
    (submit_update_operator decimal backend alice
      (codes "7")
      signature
      (codes "tomorrow")
      bob
      true).posted
    ≡ some (update_operator alice 7 signature bob true (codes "tomorrow"))
unfolding submit_update_operator all_digits
posted_operator = refl

submit_transfer-posted_example :
    ((submit_transfer decimal backend alice
        (codes "7")
        signature
        (codes "tomorrow")
        (codes "00000006")
        alice
        bob).posted
      ≡ some (transfer alice 7 signature (codes "00000006") alice bob (codes "tomorrow")))
    ↔ ((n : ℕ) × (length alice ≡ 50)
        × (is_empty (codes "7") ≡ false)
        × (decimal (codes "7") ≡ some n)
        × (length signature ≡ 128)
        × (length (codes "00000006") ≡ 8)
        × (length alice ≡ 50)
        × (length bob ≡ 50)
        × (transfer alice 7 signature (codes "00000006") alice bob (codes "tomorrow")
            ≡ transfer alice n signature (codes "00000006") alice bob (codes "tomorrow")))
submit_transfer-posted_example =
    submit_transfer-posted decimal backend alice (codes "7") signature (codes "tomorrow")
      (codes "00000006") alice bob
      (transfer alice 7 signature (codes "00000006") alice bob (codes "tomorrow"))
