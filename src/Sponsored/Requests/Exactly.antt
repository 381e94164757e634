-- ===== src/Sponsored/Requests/Exactly.antt =====
-- Exactly when a request is posted.
use concordium_dapp_examples.Common.{
  ℕ, ◌≡◌, ◌↔◌, suc, refl, sym, ap, ◌∙◌, Bool, true, false, [], ◌∷◌, Option, none, some, Text, codes,
  Settled, fulfilled, rejected, ◌>>=◌, >>=-eq-fulfilled, is_empty, length, arith,
}
use concordium_dapp_examples.Sponsored.Requests.{
  Payload, transfer_of, update_of, hex, generated, generate_transfer_payload,
  generate_update_operator_payload, refuse_if, ◌>>◌, number_or, has_other_length, Request,
  update_operator, transfer, Response, submit, checked_update_operator, submit_update_operator,
  checked_transfer, submit_transfer,
}

-- A check that is passed: the test is false, and the rest of the chain decides.
passes :
    {B : Type 0} (test : Bool) (message : Text) (k : Settled B) {b : B}
    → (refuse_if test message >> k) ≡ fulfilled b
    → (test ≡ false) × (k ≡ fulfilled b)
passes true message k h = absurd (cc)
passes false message k h = (refl, h)

length_of_test : (text : Text) (n : ℕ) → has_other_length text n ≡ false → length text ≡ n
unfolding has_other_length
length_of_test text n h = ground arith

passed :
    {B : Type 0} (test : Bool) (message : Text) (k : Settled B) {b : B}
    → test ≡ false
    → k ≡ fulfilled b
    → (refuse_if test message >> k) ≡ fulfilled b
passed true message k h e = absurd (cc)
passed false message k h e = e

test_of_length : (text : Text) (n : ℕ) → length text ≡ n → has_other_length text n ≡ false
unfolding has_other_length
test_of_length text n h = ground arith

not_empty_of_length : (text : Text) (n : ℕ) → length text ≡ suc n → is_empty text ≡ false
not_empty_of_length [] n h = absurd (omega arith)
not_empty_of_length (c ∷ text) n h = refl

number_given :
    {N : Type 0} (o : Option N) (n : N) (message : Text)
    → number_or o message ≡ fulfilled n
    → o ≡ some n
number_given none n message h = absurd (cc)
number_given (some m) n message h = cc

-- The checks of a text of a fixed, positive length.
text_passed :
    {B : Type 0} (text : Text) (n : ℕ) (empty other : Text) (k : Settled B) {b : B}
    → length text ≡ suc n
    → k ≡ fulfilled b
    → (refuse_if (is_empty text) empty >> (refuse_if (has_other_length text (suc n)) other >> k))
      ≡ fulfilled b
text_passed text n empty other k h e =
    passed (is_empty text) empty _ (not_empty_of_length text n h)
      (passed (has_other_length text (suc n)) other k (test_of_length text (suc n) h) e)

number_passed :
    {N B : Type 0} (o : Option N) (n : N) (message : Text) (k : N → Settled B) {b : B}
    → o ≡ some n
    → k n ≡ fulfilled b
    → (number_or o message >>= k) ≡ fulfilled b
number_passed o n message k h e = rw h e

module _ {N : Type 0} (number : Text → Option N) (backend : Request N → Settled Response) where
  checked_update_operator_sound :
      (signer nonce signature expiry operator : Text) (add_operator : Bool) (r : Request N)
      → checked_update_operator number backend signer nonce signature expiry operator add_operator
        ≡ fulfilled r
      → (n : N) × (length signer ≡ 50)
        × (is_empty nonce ≡ false)
        × (number nonce ≡ some n)
        × (length signature ≡ 128)
        × (length operator ≡ 50)
        × (r ≡ update_operator signer n signature operator add_operator expiry)
  unfolding checked_update_operator
  checked_update_operator_sound signer nonce signature expiry operator add_operator r h =
      let (a, h) = passes (is_empty signer) _ _ h in
      let (b, h) = passes (has_other_length signer 50) _ _ h in
      let (c, h) = passes (is_empty nonce) _ _ h in
      let (n, d, h) = >>=-eq-fulfilled (number_or (number nonce) _) _ h in
      let (e, h) = passes (is_empty signature) _ _ h in
      let (f, h) = passes (has_other_length signature 128) _ _ h in
      let (g, h) = passes (is_empty operator) _ _ h in
      let (i, h) = passes (has_other_length operator 50) _ _ h in
      (
        n,
        length_of_test signer 50 b,
        c,
        number_given (number nonce) n _ d,
        length_of_test signature 128 f,
        length_of_test operator 50 i,
        cc,
      )

  checked_update_operator_complete :
      (signer nonce signature expiry operator : Text) (add_operator : Bool) (n : N)
      → length signer ≡ 50
      → is_empty nonce ≡ false
      → number nonce ≡ some n
      → length signature ≡ 128
      → length operator ≡ 50
      → checked_update_operator number backend signer nonce signature expiry operator add_operator
        ≡ fulfilled (update_operator signer n signature operator add_operator expiry)
  unfolding checked_update_operator
  checked_update_operator_complete signer nonce signature expiry operator add_operator n a b c d e =
      text_passed signer 49 _ _ _ a (
        passed (is_empty nonce) _ _ b (
          number_passed (number nonce) n _ _ c
            (text_passed signature 127 _ _ _ d (text_passed operator 49 _ _ _ e refl))))

  submit-posted :
      (message : Text) (m : Settled (Request N)) (r : Request N)
      → ((submit number backend message m).posted ≡ some r) ↔ (m ≡ fulfilled r)
  unfolding submit
  submit-posted message (rejected e) r = (λ h. absurd (cc), λ h. absurd (cc))
  submit-posted message (fulfilled q) r = (λ h. cc, λ h. cc)

  -- An update of an operator is posted to the backend exactly when the signer and the operator
  -- have 50 characters, the nonce is not empty and a number, and the signature has 128 characters,
  -- and what is posted are these texts, the number, the expiry and the choice.
  pub submit_update_operator-posted :
      (signer nonce signature expiry operator : Text) (add_operator : Bool) (r : Request N)
      → ((submit_update_operator number backend signer nonce signature expiry operator
            add_operator).posted
          ≡ some r)
        ↔ ((n : N) × (length signer ≡ 50)
            × (is_empty nonce ≡ false)
            × (number nonce ≡ some n)
            × (length signature ≡ 128)
            × (length operator ≡ 50)
            × (r ≡ update_operator signer n signature operator add_operator expiry))
  unfolding submit_update_operator
  submit_update_operator-posted signer nonce signature expiry operator add_operator r =
      let decides =
        submit-posted (codes "Unable to submit update operator")
          (checked_update_operator number backend signer nonce signature expiry operator
            add_operator)
          r in
      (
        (λ h.
            checked_update_operator_sound signer nonce signature expiry operator add_operator r
              (decides.0 h)),
        (λ h. decides.1 (
            checked_update_operator_complete signer nonce signature expiry operator add_operator h.0
              h.1 h.2 h.3 h.4 h.5
            ∙ ap fulfilled (sym h.6))),
      )

  checked_transfer_sound :
      (signer nonce signature expiry token_id from to : Text) (r : Request N)
      → checked_transfer number backend signer nonce signature expiry token_id from to ≡ fulfilled r
      → (n : N) × (length signer ≡ 50)
        × (is_empty nonce ≡ false)
        × (number nonce ≡ some n)
        × (length signature ≡ 128)
        × (length token_id ≡ 8)
        × (length from ≡ 50)
        × (length to ≡ 50)
        × (r ≡ transfer signer n signature token_id from to expiry)
  unfolding checked_transfer
  checked_transfer_sound signer nonce signature expiry token_id from to r h =
      let (a, h) = passes (is_empty signer) _ _ h in
      let (b, h) = passes (has_other_length signer 50) _ _ h in
      let (c, h) = passes (is_empty nonce) _ _ h in
      let (n, d, h) = >>=-eq-fulfilled (number_or (number nonce) _) _ h in
      let (e, h) = passes (is_empty signature) _ _ h in
      let (f, h) = passes (has_other_length signature 128) _ _ h in
      let (g, h) = passes (is_empty token_id) _ _ h in
      let (i, h) = passes (has_other_length token_id 8) _ _ h in
      let (j, h) = passes (is_empty from) _ _ h in
      let (k, h) = passes (has_other_length from 50) _ _ h in
      let (l, h) = passes (is_empty to) _ _ h in
      let (m, h) = passes (has_other_length to 50) _ _ h in
      (
        n,
        length_of_test signer 50 b,
        c,
        number_given (number nonce) n _ d,
        length_of_test signature 128 f,
        length_of_test token_id 8 i,
        length_of_test from 50 k,
        length_of_test to 50 m,
        cc,
      )

  checked_transfer_complete :
      (signer nonce signature expiry token_id from to : Text) (n : N)
      → length signer ≡ 50
      → is_empty nonce ≡ false
      → number nonce ≡ some n
      → length signature ≡ 128
      → length token_id ≡ 8
      → length from ≡ 50
      → length to ≡ 50
      → checked_transfer number backend signer nonce signature expiry token_id from to
        ≡ fulfilled (transfer signer n signature token_id from to expiry)
  unfolding checked_transfer
  checked_transfer_complete signer nonce signature expiry token_id from to n a b c d e f g =
      text_passed signer 49 _ _ _ a (
        passed (is_empty nonce) _ _ b (
          number_passed (number nonce) n _ _ c (
            text_passed signature 127 _ _ _ d (
              text_passed token_id 7 _ _ _ e
                (text_passed from 49 _ _ _ f (text_passed to 49 _ _ _ g refl))))))

  -- A transfer is posted to the backend exactly when the signer and both addresses have 50
  -- characters, the nonce is not empty and a number, the signature has 128 characters and the
  -- token id 8, and what is posted are these texts, the number and the expiry.
  pub submit_transfer-posted :
      (signer nonce signature expiry token_id from to : Text) (r : Request N)
      → ((submit_transfer number backend signer nonce signature expiry token_id from to).posted
          ≡ some r)
        ↔ ((n : N) × (length signer ≡ 50)
            × (is_empty nonce ≡ false)
            × (number nonce ≡ some n)
            × (length signature ≡ 128)
            × (length token_id ≡ 8)
            × (length from ≡ 50)
            × (length to ≡ 50)
            × (r ≡ transfer signer n signature token_id from to expiry))
  unfolding submit_transfer
  submit_transfer-posted signer nonce signature expiry token_id from to r =
      let decides =
        submit-posted (codes "Unable to submit transfer")
          (checked_transfer number backend signer nonce signature expiry token_id from to) r in
      (
        (λ h.
            checked_transfer_sound signer nonce signature expiry token_id from to r (decides.0 h)),
        (λ h. decides.1 (
            checked_transfer_complete signer nonce signature expiry token_id from to h.0 h.1 h.2 h.3
              h.4 h.5 h.6 h.7
            ∙ ap fulfilled (sym h.8))),
      )

generated-hex :
    (m : Settled (Settled Text)) (payload : Text)
    → generated m ≡ hex payload
    → m ≡ fulfilled (fulfilled payload)
unfolding generated
generated-hex (rejected e) payload h = absurd (cc)
generated-hex (fulfilled (rejected e)) payload h = absurd (cc)
generated-hex (fulfilled (fulfilled p)) payload h = cc

module _ {N : Type 0} (number : Text → Option N) (serialize : Payload → Settled Text) where
  -- A generated payload is the serialised content of the fields.
  pub generate_update_operator_payload-hex :
      (nonce operator : Text) (add_operator : Bool) (payload : Text)
      → generate_update_operator_payload number serialize nonce operator add_operator ≡ hex payload
      → serialize (update_of operator add_operator) ≡ fulfilled payload
  unfolding generate_update_operator_payload
  generate_update_operator_payload-hex nonce operator add_operator payload h =
      let h = generated-hex _ payload h in
      let (a, h) = passes (is_empty nonce) _ _ h in
      let (n, b, h) = >>=-eq-fulfilled (number_or (number nonce) _) _ h in
      let (c, h) = passes (is_empty operator) _ _ h in
      let (d, h) = passes (has_other_length operator 50) _ _ h in cc

  pub generate_transfer_payload-hex :
      (nonce token_id from to payload : Text)
      → generate_transfer_payload number serialize nonce token_id from to ≡ hex payload
      → serialize (transfer_of token_id from to) ≡ fulfilled payload
  unfolding generate_transfer_payload
  generate_transfer_payload-hex nonce token_id from to payload h =
      let h = generated-hex _ payload h in
      let (a, h) = passes (is_empty nonce) _ _ h in
      let (n, b, h) = >>=-eq-fulfilled (number_or (number nonce) _) _ h in
      let (c, h) = passes (is_empty token_id) _ _ h in
      let (d, h) = passes (has_other_length token_id 8) _ _ h in
      let (e, h) = passes (is_empty from) _ _ h in
      let (f, h) = passes (has_other_length from 50) _ _ h in
      let (g, h) = passes (is_empty to) _ _ h in
      let (i, h) = passes (has_other_length to 50) _ _ h in cc
