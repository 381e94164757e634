-- ===== src/Auction/Bid/Signing.antt =====
-- What a bid repeats of the message that was signed.
use mathlib.Core.Path.{subst}
use concordium_dapp_examples.Common.{
  ℕ, ◌≡◌, refl, sym, ap, Bool, true, false, List, [], ◌∷◌, Option, none, some, Text, codes, Settled,
  fulfilled, rejected, ◌>>=◌, if◌then◌else◌,
}
use concordium_dapp_examples.Auction.TokenId.{Number, is_nan, hex_string}
use concordium_dapp_examples.Auction.Bid.{
  Message, Request, Environment, State, change_nonce, change_signer, wrap_error, item_token,
  transfer_payload, generate_transfer_payload, set_token, after_generated, with_item,
  started_signing, on_submit_signing, request_of, on_submit_bid, on_signature, with_signature,
  message_of,
}

module _ (env : Environment) where
  -- A transfer of the token of an item, whose data are the bytes of the item's index, serialises to
  -- the payload.
  pub record IsTransfer (index : Number) (account amount token payload : Text) : Type 0 where
    pub bytes : List ℕ
    pub index_bytes : env.serialize_index index ≡ fulfilled bytes
    pub serialized :
        env.serialize_transfer (record {
          amount = amount;
          additional_data = hex_string bytes;
          from = account;
          token_id = token;
        })
        ≡ fulfilled payload

  -- The request carries the signature and the nonce, the expiry and the account of the message, and
  -- the message's payload is the transfer of the requested amount of the requested token, which is
  -- that of the requested item.
  pub record Repeats (m : Message) (signature : Text) (r : Request) : Type 0 where
    pub same_signature : r.signature ≡ signature
    pub same_nonce : r.nonce ≡ m.nonce
    pub same_expiry : r.expiry ≡ m.expiry
    pub same_account : r.from ≡ m.account
    pub token : Text
    pub same_token : r.token_id ≡ some token
    pub token_of_item : env.view_item_state r.item_index ≡ fulfilled token
    pub signed_transfer : IsTransfer r.item_index r.from r.token_amount token m.payload

  item_token-viewed :
      (index token : Text)
      → item_token env index ≡ fulfilled token
      → env.view_item_state (env.number index) ≡ fulfilled token
  unfolding item_token
  item_token-viewed index token h = go (is_nan (env.number index)) h
    where
      go :
          (b : Bool)
          → ◌≡◌ {A = Settled Text}
              (if b
                then rejected (codes "ItemIndex is NaN.")
                else env.view_item_state (env.number index))
              (fulfilled token)
          → env.view_item_state (env.number index) ≡ fulfilled token
      go true k = cc
      go false k = k

  transfer_payload-IsTransfer :
      (account amount index token payload : Text)
      → transfer_payload env account amount index token ≡ fulfilled payload
      → IsTransfer (env.number index) account amount token payload
  unfolding transfer_payload
  transfer_payload-IsTransfer account amount index token payload h =
      go (env.serialize_index (env.number index)) refl h
    where
      go :
          (bs : Settled (List ℕ))
          → env.serialize_index (env.number index) ≡ bs
          → (bs >>= λ bytes. env.serialize_transfer (record {
            amount = amount;
            additional_data = hex_string bytes;
            from = account;
            token_id = token;
          }))
            ≡ fulfilled payload
          → IsTransfer (env.number index) account amount token payload
      go (fulfilled bytes) e k = record { bytes = bytes; index_bytes = e; serialized = k }
      go (rejected message) e k = cc

  -- A generated payload, and the token that is stored with it.
  record Generates (account amount index payload : Text) (item : Settled Text) : Type 0 where
    pub token : Text
    pub found : item ≡ fulfilled token
    pub generated :
        generate_transfer_payload env account amount index item ≡ (some token, fulfilled payload)
    pub transfer : IsTransfer (env.number index) account amount token payload

  generate_transfer_payload-Generates :
      (account amount index payload : Text) (item : Settled Text)
      → (generate_transfer_payload env account amount index item).1 ≡ fulfilled payload
      → Generates account amount index payload item
  unfolding generate_transfer_payload
  generate_transfer_payload-Generates account amount index payload (rejected e) h = cc
  generate_transfer_payload-Generates account amount index payload (fulfilled token) h =
      generated_from (transfer_payload env account amount index token) refl h
    where
      generated_from :
          (p : Settled Text)
          → transfer_payload env account amount index token ≡ p
          → wrap_error env p ≡ fulfilled payload
          → Generates account amount index payload (fulfilled token)
      generated_from (rejected e) same k = cc
      generated_from (fulfilled q) same k =
          let e : transfer_payload env account amount index token ≡ fulfilled payload =
            cc (same, k) in
          record {
            token = token;
            found = refl;
            generated = rw e refl;
            transfer = transfer_payload-IsTransfer account amount index token payload e;
          }

  -- The wallet is only asked to sign a payload that was generated.
  with_item-asked :
      (account : Text) (s : State) (token : Option Text) (payload : Settled Text) (m : Message)
      → (with_item env account s (token, payload)).1 ≡ some m
      → payload ≡ fulfilled m.payload
  unfolding with_item after_generated message_of
  with_item-asked account s token (rejected e) m h = cc
  with_item-asked account s token (fulfilled p) m h =
      let same : message_of env account p (set_token env token s) ≡ m = cc in
      ap (λ n. fulfilled n.payload) same

  with_signature-request_of :
      (signature account : Text) (s : State) (r : Request)
      → with_signature env (some signature) account s ≡ some r
      → request_of env signature account s ≡ r
  unfolding with_signature
  with_signature-request_of [] account s r h = cc
  with_signature-request_of (c ∷ signature) account s r h = cc

  -- The state after the wallet's answer, with the signer typed in.
  abbrev signed_by : Text → Text → State → State
  signed_by signature signer s = change_signer signer (on_signature (fulfilled signature) s)

  module _ (account payload signature signer token : Text) (s : State) (m : Message) (r : Request)
      (found : env.view_item_state (env.number s.item_index) ≡ fulfilled token)
      (transfer : IsTransfer (env.number s.item_index) account s.token_amount token payload) where
    stored_token-Repeats :
        (with_item env account s (some token, fulfilled payload)).1 ≡ some m
        → with_signature env
            (some signature)
            account
            (signed_by signature signer (set_token env (some token) s))
          ≡ some r
        → Repeats m signature r
    unfolding with_item after_generated message_of request_of set_token change_signer on_signature
    stored_token-Repeats asked h =
        let same : message_of env account payload (set_token env (some token) s) ≡ m = cc in
        subst (λ q. Repeats m signature q) (with_signature-request_of signature account _ r h)
          (subst
            (λ n. Repeats n signature (
              request_of env signature account
                (signed_by signature signer (set_token env (some token) s))))
            same
            (record {
              same_signature = refl;
              same_nonce = refl;
              same_expiry = refl;
              same_account = refl;
              token = token;
              same_token = refl;
              token_of_item = found;
              signed_transfer = transfer;
            }))

    generated-Repeats :
        (g : Option Text × Settled Text)
        → g ≡ (some token, fulfilled payload)
        → (with_item env account s g).1 ≡ some m
        → with_signature env
            (some signature)
            account
            (signed_by signature signer (with_item env account s g).0)
          ≡ some r
        → Repeats m signature r
    unfolding with_item after_generated
    generated-Repeats g e =
        subst
          (λ g.
            (with_item env account s g).1 ≡ some m
            → with_signature env (some signature) account
                (signed_by signature signer (with_item env account s g).0)
              ≡ some r
            → Repeats m signature r)
          (sym e) stored_token-Repeats

  -- If a click asks the wallet to sign a message, the wallet signs it, only the signer is typed in
  -- between and the same account's next click posts a request, then the request repeats the
  -- message: its signature, nonce, expiry and account, the token is that of the requested item,
  -- and a transfer of the requested amount of that token, with the bytes of the item's index as
  -- its data, serialises to the payload that was signed.
  pub on_submit_signing-Repeats :
      (now : ℕ) (account : Option Text) (signature signer : Text) (s : State) (m : Message)
      (r : Request)
      → (on_submit_signing env now account s).1 ≡ some m
      → (on_submit_bid env account (
          change_signer signer
            (on_signature (fulfilled signature) (on_submit_signing env now account s).0))).1
        ≡ some r
      → Repeats m signature r
  unfolding on_submit_signing on_submit_bid change_signer on_signature started_signing with_item
      after_generated
  on_submit_signing-Repeats now none signature signer s m r asked h = cc
  on_submit_signing-Repeats now (some []) signature signer s m r asked h = cc
  on_submit_signing-Repeats now (some (c ∷ p)) signature signer s m r asked h =
      let g : Generates (c ∷ p) s.token_amount s.item_index m.payload
          (item_token env s.item_index) =
        generate_transfer_payload-Generates (c ∷ p) s.token_amount s.item_index m.payload _
          (with_item-asked (c ∷ p) (started_signing env now s) _ _ m asked) in
      generated-Repeats (c ∷ p) m.payload signature signer g.token (started_signing env now s) m r
        (item_token-viewed s.item_index g.token g.found) g.transfer _ g.generated asked h

  -- With a signature and an account there, another nonce can be typed in, and the next click posts
  -- the signature that was there before with the new nonce.
  pub on_submit_bid-change_nonce :
      (c d : ℕ) (account digits nonce : Text) (s : State)
      → s.signature ≡ some (d ∷ digits)
      → (r : Request) × ((on_submit_bid env (some (c ∷ account)) (change_nonce nonce s)).1 ≡ some r)
        × (r.signature ≡ d ∷ digits)
        × (r.nonce ≡ env.number nonce)
        × (r.expiry ≡ s.expiry_time)
  unfolding on_submit_bid with_signature request_of change_nonce
  on_submit_bid-change_nonce c d account digits nonce s h = (
    request_of env (d ∷ digits) (c ∷ account) (change_nonce nonce s),
    rw h refl,
    refl,
    refl,
    refl,
  )
