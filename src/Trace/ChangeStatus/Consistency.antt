-- ===== src/Trace/ChangeStatus/Consistency.antt =====
-- What reaches the backend is what the wallet signed.
use concordium_dapp_examples.Common.{
  ℕ, ◌+◌, ◌*◌, ◌≡◌, refl, sym, ap, ◌∙◌, Bool, true, false, [], ◌∷◌, Option, none, some, Text,
  Settled, fulfilled, rejected, >>=-eq-fulfilled,
}
use concordium_dapp_examples.Common.Int.{ℤ}
use concordium_dapp_examples.Js.{bigint}
use concordium_dapp_examples.Trace.TokenIdU64.{to_token_id_u64}
use concordium_dapp_examples.Trace.Contract.{Status}
use concordium_dapp_examples.Trace.ChangeStatus.{
  Bytes, Submission, Environment, State, Run, token_id_of, wrap_error, serialized, generate_message,
  submission, posted_run, after_signing, generated_run, not_connected, connected_run, on_submit,
}

module _ (env : Environment) where
  -- The payload is the change of the item's status, and the message carries it, the expiry and the nonce.
  pub record IsGenerated (new_status : Status) (item_id : Text) (expiry nonce : ℕ)
      (payload message : Bytes) : Type 0 where
    pub number : ℤ
    pub token_id : Text
    pub reads : bigint item_id ≡ some number
    pub names : to_token_id_u64 number ≡ fulfilled token_id
    pub is_payload :
        env.create_parameter (record { item_id = token_id; new_status = new_status })
        ≡ fulfilled payload
    pub is_message :
        env.create_message (record { nonce = nonce; timestamp = expiry; payload = payload })
        ≡ fulfilled message

  token_id_of_sound :
      (item_id token_id : Text)
      → token_id_of env item_id ≡ fulfilled token_id
      → (number : ℤ) × (bigint item_id ≡ some number)
        × (to_token_id_u64 number ≡ fulfilled token_id)
  unfolding token_id_of
  token_id_of_sound item_id token_id h = go (bigint item_id) refl h
    where
      go :
          (m : Option ℤ)
          → bigint item_id ≡ m
          → ◌≡◌ {A = Settled Text}
              (elim m [ none ↦ rejected env.syntax_error | some number ↦ to_token_id_u64 number ])
              (fulfilled token_id)
          → (number : ℤ) × (bigint item_id ≡ some number)
            × (to_token_id_u64 number ≡ fulfilled token_id)
      go none e h = cc
      go (some number) e h = (number, e, h)

  serialized_sound :
      (new_status : Status) (item_id : Text) (expiry nonce : ℕ) (payload message : Bytes)
      → serialized env new_status item_id expiry nonce ≡ fulfilled (payload, message)
      → IsGenerated new_status item_id expiry nonce payload message
  unfolding serialized
  serialized_sound new_status item_id expiry nonce payload message h =
      let (token_id, named, h) = >>=-eq-fulfilled (token_id_of env item_id) _ h in
      let (p, is_p, h) = >>=-eq-fulfilled (env.create_parameter _) _ h in
      let (m, is_m, h) = >>=-eq-fulfilled (env.create_message _) _ h in
      let (number, reads, names) = token_id_of_sound item_id token_id named in
      let same : payload ≡ p = cc in
      record {
        number = number;
        token_id = token_id;
        reads = reads;
        names = names;
        is_payload = is_p ∙ ap fulfilled (sym same);
        is_message =
            ap (λ p. env.create_message (record { nonce = nonce; timestamp = expiry; payload = p }))
              same
            ∙ is_m
            ∙ cc;
      }

  generate_message_sound :
      (new_status : Status) (item_id : Text) (expiry nonce : ℕ) (payload message : Bytes)
      → generate_message env (some new_status) item_id expiry nonce ≡ fulfilled (payload, message)
      → IsGenerated new_status item_id expiry nonce payload message
  unfolding generate_message wrap_error
  generate_message_sound new_status item_id expiry nonce payload message h =
      serialized_sound new_status item_id expiry nonce payload message (unwrapped _ h)
    where
      unwrapped :
          (m : Settled (Bytes × Bytes))
          → wrap_error env m ≡ fulfilled (payload, message)
          → m ≡ fulfilled (payload, message)
      unwrapped (fulfilled r) h = cc
      unwrapped (rejected e) h = cc

  -- The wallet signed a message with this payload, nonce and expiry, and they are what is posted.
  pub record IsSigned (account : Text) (new_status : Status) (item_id : Text) (expiry nonce : ℕ)
      (run : Run) (p : Submission) : Type 0 where
    pub payload : Bytes
    pub message : Bytes
    pub signature : Text
    pub generated : IsGenerated new_status item_id expiry nonce payload message
    pub asked : run.signed ≡ some (account, message)
    pub signed : env.sign_message account message ≡ fulfilled signature
    pub posts : p ≡ record {
      signer = account;
      nonce = nonce;
      signature = signature;
      expiry_time = env.iso_string expiry;
      parameter = env.hex payload;
    }

  after_signing_sound :
      (account : Text) (new_status : Status) (item_id : Text) (expiry nonce : ℕ)
      (payload message : Bytes) (s : State) (p : Submission) (m : Settled Text)
      → IsGenerated new_status item_id expiry nonce payload message
      → env.sign_message account message ≡ m
      → (after_signing env account nonce expiry payload message s m).posted ≡ some p
      → IsSigned account new_status item_id expiry nonce
          (after_signing env account nonce expiry payload message s m)
          p
  unfolding after_signing posted_run submission
  after_signing_sound account new_status item_id expiry nonce payload message s p (rejected e) g q
        h =
      cc
  after_signing_sound account new_status item_id expiry nonce payload message s p
        (fulfilled signature) g q h =
      record {
        payload = payload;
        message = message;
        signature = signature;
        generated = g;
        asked = refl;
        signed = q;
        posts = cc;
      }

  generated_run_sound :
      (account : Text) (new_status : Status) (item_id : Text) (expiry nonce : ℕ) (s : State)
      (p : Submission) (m : Settled (Bytes × Bytes))
      → generate_message env (some new_status) item_id expiry nonce ≡ m
      → (generated_run env account nonce expiry m s).posted ≡ some p
      → IsSigned account new_status item_id expiry nonce
          (generated_run env account nonce expiry m s)
          p
  unfolding generated_run
  generated_run_sound account new_status item_id expiry nonce s p (rejected e) q h = cc
  generated_run_sound account new_status item_id expiry nonce s p (fulfilled (payload, message)) q
        h =
      after_signing_sound account new_status item_id expiry nonce payload message s p
        (env.sign_message account message)
        (generate_message_sound new_status item_id expiry nonce payload message q) refl h

  connected_run_sound :
      (connected : Bool) (account : Option Text) (new_status : Status) (item_id : Text)
      (expiry nonce : ℕ) (s : State) (p : Submission)
      → (connected_run env connected account new_status item_id expiry nonce s).posted ≡ some p
      → (signer : Text) × (connected ≡ true)
        × (account ≡ some signer)
        × IsSigned signer new_status item_id expiry nonce
            (connected_run env connected account new_status item_id expiry nonce s)
            p
  unfolding connected_run not_connected
  connected_run_sound false account new_status item_id expiry nonce s p h = cc
  connected_run_sound true none new_status item_id expiry nonce s p h = cc
  connected_run_sound true (some []) new_status item_id expiry nonce s p h = cc
  connected_run_sound true (some (d ∷ account)) new_status item_id expiry nonce s p h = (
    d ∷ account,
    refl,
    refl,
    generated_run_sound (d ∷ account) new_status item_id expiry nonce s p _ refl h,
  )

  -- What a click posts to the backend is what the wallet signed: it is posted for the connected
  -- account, and the signed message and the posted request carry the same payload, made of the
  -- token id of the number in the field and the chosen status, the same nonce, and the same
  -- expiry, a day from now.
  pub on_submit-IsSigned :
      (now : ℕ) (connected : Bool) (account : Option Text) (new_status : Option Status)
      (item_id : Option Text) (nonce : ℕ) (s : State) (p : Submission)
      → (on_submit env now connected account new_status item_id nonce s).posted ≡ some p
      → (signer : Text) × (status : Status) × (item : Text) × (connected ≡ true)
        × (account ≡ some signer)
        × (new_status ≡ some status)
        × (item_id ≡ some item)
        × IsSigned signer status item
            (now + 86400 * 1000)
            nonce
            (on_submit env now connected account new_status item_id nonce s)
            p
  unfolding on_submit
  on_submit-IsSigned now connected account none item_id nonce s p h = cc
  on_submit-IsSigned now connected account (some status) none nonce s p h = cc
  on_submit-IsSigned now connected account (some status) (some item) nonce s p h =
      let (signer, c, a, signed) =
        connected_run_sound connected account status item _ nonce _ p h in
      (signer, status, item, c, a, refl, refl, signed)
