-- ===== src/Sponsored/Page/Signing.antt =====
-- What is submitted, and what was signed.
use mathlib.Core.Path.{subst}
use concordium_dapp_examples.Common.{
  sym, ℕ, ◌+◌, ◌*◌, ◌≡◌, refl, Bool, true, false, not, [], ◌∷◌, Option, some, Text, Settled,
  fulfilled, is_empty, length,
}
use concordium_dapp_examples.Sponsored.Requests.{
  Request, update_operator, transfer, Response, Payload, transfer_of, update_of, Generated, hex,
  alerted, threw,
}
use concordium_dapp_examples.Sponsored.Requests.Exactly.{
  submit_update_operator-posted, submit_transfer-posted, generate_update_operator_payload-hex,
  generate_transfer_payload-hex,
}
use concordium_dapp_examples.Sponsored.Page.{
  State, change_operator, change_signer, switch_tab, Message, on_signature, submit_disabled,
  message_of, after_generated, generate, sign_clicked, submission, submit_clicked,
}

-- The request repeats the message: its nonce, its expiry and the content of its payload.
pub Repeats : {N : Type 0} → (Payload → Settled Text) → Message N → Text → Request N → Type 0
Repeats serialize m signature (update_operator signer n s operator add_operator timestamp) =
    (m.is_update_operator ≡ true)
    × (m.nonce ≡ some n)
    × (m.expiry ≡ timestamp)
    × (s ≡ signature)
    × (serialize (update_of operator add_operator) ≡ fulfilled m.payload)
Repeats serialize m signature (transfer signer n s token_id from to timestamp) =
    (m.is_update_operator ≡ false)
    × (m.nonce ≡ some n)
    × (m.expiry ≡ timestamp)
    × (s ≡ signature)
    × (serialize (transfer_of token_id from to) ≡ fulfilled m.payload)

module _ {N : Type 0} (number : Text → Option N) (iso_string : ℕ → Text)
    (serialize : Payload → Settled Text) (backend : Request N → Settled Response) where
  signed_state : ℕ → State → State
  signed_state now s = record s {
    signing_error = [];
    signature = [];
    expiry_time = iso_string (now + 86400 * 1000);
  }

  update_operator_Repeats :
      (now : ℕ) (account signature signer payload : Text) (s : State) (r : Request N)
      → s.is_update_operator_tab ≡ true
      → generate number iso_string serialize true s ≡ hex payload
      → (submission number iso_string backend true
          (change_signer signer (on_signature (fulfilled signature) (signed_state now s)))).posted
        ≡ some r
      → Repeats serialize
          (message_of number iso_string account payload (signed_state now s))
          signature
          r
  unfolding generate submission change_signer on_signature signed_state message_of Repeats
  update_operator_Repeats now account signature signer payload s r tab g h =
      let (n, a, b, c, d, e, same) =
        (submit_update_operator-posted number backend signer s.nonce signature
            (iso_string (now + 86400 * 1000)) s.operator s.add_operator r).0
          h in
      subst
        (Repeats serialize (message_of number iso_string account payload (signed_state now s))
          signature)
        (sym same)
        (
          tab,
          c,
          refl,
          refl,
          generate_update_operator_payload-hex number serialize s.nonce s.operator s.add_operator
              payload g,
        )

  transfer_Repeats :
      (now : ℕ) (account signature signer payload : Text) (s : State) (r : Request N)
      → s.is_update_operator_tab ≡ false
      → generate number iso_string serialize false s ≡ hex payload
      → (submission number iso_string backend false
          (change_signer signer (on_signature (fulfilled signature) (signed_state now s)))).posted
        ≡ some r
      → Repeats serialize
          (message_of number iso_string account payload (signed_state now s))
          signature
          r
  unfolding generate submission change_signer on_signature signed_state message_of Repeats
  transfer_Repeats now account signature signer payload s r tab g h =
      let (n, a, b, c, d, e, f, i, same) =
        (submit_transfer-posted number backend signer s.nonce signature
            (iso_string (now + 86400 * 1000)) s.token_id s.from s.to r).0
          h in
      subst
        (Repeats serialize (message_of number iso_string account payload (signed_state now s))
          signature)
        (sym same)
        (
          tab,
          c,
          refl,
          refl,
          generate_transfer_payload-hex number serialize s.nonce s.token_id s.from s.to payload g,
        )

  both_Repeat :
      (b : Bool) (g : Generated) (now : ℕ) (account signature signer : Text) (s : State)
      (m : Message N) (r : Request N)
      → s.is_update_operator_tab ≡ b
      → generate number iso_string serialize b s ≡ g
      → (after_generated number iso_string account g (signed_state now s)).1 ≡ some m
      → (submission number iso_string backend
          (after_generated number iso_string account g
            (signed_state now s)).0.is_update_operator_tab
          (change_signer signer (
            on_signature
              (fulfilled signature)
              (after_generated number iso_string account g (signed_state now s)).0))).posted
        ≡ some r
      → Repeats serialize m signature r
  unfolding after_generated signed_state
  both_Repeat b (hex []) now account signature signer s m r tab e asked h = absurd (cc)
  both_Repeat b (alerted e') now account signature signer s m r tab e asked h = absurd (cc)
  both_Repeat b (threw e') now account signature signer s m r tab e asked h = absurd (cc)
  both_Repeat true (hex (c ∷ p)) now account signature signer s m r tab e asked h =
      let same : message_of number iso_string account (c ∷ p) (signed_state now s) ≡ m = cc in
      subst (λ m. Repeats serialize m signature r) same
        (update_operator_Repeats now account signature signer (c ∷ p) s r tab e (
          subst
            (λ b.
              (submission number iso_string backend b (
                change_signer signer
                  (on_signature (fulfilled signature) (signed_state now s)))).posted
              ≡ some r)
            tab h))
  both_Repeat false (hex (c ∷ p)) now account signature signer s m r tab e asked h =
      let same : message_of number iso_string account (c ∷ p) (signed_state now s) ≡ m = cc in
      subst (λ m. Repeats serialize m signature r) same
        (transfer_Repeats now account signature signer (c ∷ p) s r tab e (
          subst
            (λ b.
              (submission number iso_string backend b (
                change_signer signer
                  (on_signature (fulfilled signature) (signed_state now s)))).posted
              ≡ some r)
            tab h))

  -- If a click asks the wallet to sign a message, the wallet signs it, only the signer is typed in
  -- between and the next click posts a request, then the request carries that signature, the nonce
  -- and the expiry of the message, it is of the kind of the message, and its fields serialise to
  -- the payload of the message.
  pub sign_clicked-Repeats :
      (now : ℕ) (account signature signer : Text) (s : State) (m : Message N) (r : Request N)
      → (sign_clicked number iso_string serialize now account s).1 ≡ some m
      → (submit_clicked number iso_string backend (
          change_signer signer (
            on_signature
              (fulfilled signature)
              (sign_clicked number iso_string serialize now account s).0))).1.posted
        ≡ some r
      → Repeats serialize m signature r
  unfolding sign_clicked submit_clicked signed_state change_signer on_signature
  sign_clicked-Repeats now account signature signer s m r asked h =
      both_Repeat s.is_update_operator_tab _ now account signature signer s m r refl refl asked h

  -- On the operator tab with a signer of 50 characters, a nonce that is a number and a signature
  -- of 128 characters, the operator can be changed to any other text of 50 characters, and the
  -- next click posts that operator with the signature that was there before.
  pub submit_clicked-change_operator :
      (s : State) (other : Text) (n : N)
      → s.is_update_operator_tab ≡ true
      → length s.signer ≡ 50
      → is_empty s.nonce ≡ false
      → number s.nonce ≡ some n
      → length s.signature ≡ 128
      → length other ≡ 50
      → (submit_clicked number iso_string backend (change_operator other s)).1.posted
        ≡ some (update_operator s.signer n s.signature other s.add_operator s.expiry_time)
  unfolding submit_clicked submission change_operator
  submit_clicked-change_operator s other n tab a b c d e =
      subst
        (λ b.
          (submission number iso_string backend b (change_operator other s)).posted
          ≡ some (update_operator s.signer n s.signature other s.add_operator s.expiry_time))
        (sym tab)
        ((submit_update_operator-posted number backend s.signer s.nonce s.signature s.expiry_time
            other s.add_operator _).1
          (n, a, b, c, d, e, refl))

  -- A signature that arrives after the tab was switched is shown on the other tab, where it enables
  -- the button.
  pub switch_tab-on_signature :
      (s : State) (c : ℕ) (signature : Text)
      → (submit_disabled (on_signature (fulfilled (c ∷ signature)) (switch_tab s)) ≡ false)
        × ((on_signature (fulfilled (c ∷ signature)) (switch_tab s)).is_update_operator_tab
            ≡ not s.is_update_operator_tab)
  unfolding submit_disabled on_signature switch_tab
  switch_tab-on_signature s c signature = (refl, refl)
