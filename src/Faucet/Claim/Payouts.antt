-- ===== src/Faucet/Claim/Payouts.antt =====
-- What a claim has passed when tokens are sent.
use mathlib.Core.Path.{subst}
use concordium_dapp_examples.Common.{
  ℕ, ◌≡◌, refl, Bool, true, false, ◌&&◌, ◌||◌, List, [], ◌∷◌, Option, none, some, Text, codes,
  Settled, fulfilled, rejected, >>=-eq-fulfilled, eq_text, eq_text_iff, is_empty, Bool-cases, inl,
  inr,
}
use concordium_dapp_examples.Faucet.UsageLimit.{check_usage_limit}
use concordium_dapp_examples.Faucet.Claim.{
  Transfer, Environment, Served, includes, create_client, get_sender_account_signer,
  create_transfer, create_account_transaction, unexpected, answer_of, prepared, pay_out,
  is_valid_post, on_post, on_limit, validate_and_claim,
}

and_left : (a b : Bool) → (a && b) ≡ true → a ≡ true
and_left true b h = refl
and_left false b h = h

and_right : (a b : Bool) → (a && b) ≡ true → b ≡ true
and_right true b h = h
and_right false b h = absurd (cc)

module _ {Address : Type 0} (env : Environment Address) where
  -- The transfer, its signature, and what becomes of it.
  pub record IsPaid (receiver : Text) (t : Transfer Address) (served : Served Address)
      : Type 0 where
    pub to_receiver : env.from_base58 receiver ≡ fulfilled t.to_address
    pub from_faucet : env.from_base58 env.explorer.sender_address ≡ fulfilled t.sender
    pub next : env.next_nonce t.sender ≡ fulfilled t.nonce
    pub default_amount : t.amount ≡ env.ccd_default_amount
    pub hour : t.expiry_minutes ≡ 60
    pub signature : Text
    pub signed : env.sign t ≡ fulfilled signature
    pub once : served.sent ≡ t ∷ []
    pub replied : served.reply ≡ some (answer_of env (env.send t signature))

  -- The post names the receiver and the keyword.
  pub record IsPublished (post_id receiver : Text) : Type 0 where
    pub text : Text
    pub published : env.tweet_details post_id ≡ fulfilled (some text)
    pub names_receiver : includes receiver text ≡ true
    pub names_concordium : includes (codes "Concordium") text ≡ true

  -- Everything that stands before the transfer.
  pub record IsEarned (method post_id receiver : Text) (t : Transfer Address)
      (served : Served Address) : Type 0 where
    pub posts : method ≡ codes "POST"
    pub within_limit :
        check_usage_limit env.explorer env.usage_limit env.now receiver ≡ fulfilled true
    pub post : IsPublished post_id receiver
    pub paid : IsPaid receiver t served

  IsTransfer : Text → Transfer Address → Type 0
  IsTransfer receiver t =
      (env.from_base58 receiver ≡ fulfilled t.to_address)
      × (env.from_base58 env.explorer.sender_address ≡ fulfilled t.sender)
      × (env.next_nonce t.sender ≡ fulfilled t.nonce)
      × (t.amount ≡ env.ccd_default_amount)
      × (t.expiry_minutes ≡ 60)

  made : Address → ℕ → Address → Transfer Address
  made sender nonce to = record {
    sender = sender;
    nonce = nonce;
    expiry_minutes = 60;
    amount = env.ccd_default_amount;
    to_address = to;
  }

  create_transfer_sound :
      (receiver : Text) (t : Transfer Address)
      → create_transfer env env.explorer.sender_address receiver ≡ fulfilled t
      → IsTransfer receiver t
  unfolding create_transfer IsTransfer made
  create_transfer_sound receiver t h =
      let (sender, is_sender, h) =
        >>=-eq-fulfilled (env.from_base58 env.explorer.sender_address) _ h in
      let (nonce, is_nonce, h) = >>=-eq-fulfilled (env.next_nonce sender) _ h in
      let (to, is_to, h) = >>=-eq-fulfilled (env.from_base58 receiver) _ h in
      let same : made sender nonce to ≡ t = cc in
      subst (IsTransfer receiver) same (is_to, is_sender, is_nonce, refl, refl)

  create_account_transaction_sound :
      (receiver : Text) (t : Transfer Address)
      → create_account_transaction env env.explorer.sender_address receiver ≡ fulfilled t
      → IsTransfer receiver t
  unfolding create_account_transaction
  create_account_transaction_sound receiver t h =
      elim (Bool-cases (is_empty env.ccd_default_amount)) [
        | inl e ↦ absurd (cc (rw e at h))
        | inr e ↦ create_transfer_sound receiver t (rw e at h)
      ]

  prepared_sound :
      (receiver signature : Text) (t : Transfer Address)
      → prepared env receiver ≡ fulfilled (t, signature)
      → IsTransfer receiver t × (env.sign t ≡ fulfilled signature)
  unfolding prepared
  prepared_sound receiver signature t h =
      let (c, is_c, h) = >>=-eq-fulfilled (create_client env) _ h in
      let (s, is_s, h) = >>=-eq-fulfilled (get_sender_account_signer env) _ h in
      let (u, is_u, h) =
        >>=-eq-fulfilled (create_account_transaction env env.explorer.sender_address receiver) _
          h in
      let (g, is_g, h) = >>=-eq-fulfilled (env.sign u) _ h in
      let same : u ≡ t = cc in
      let same_signature : g ≡ signature = cc in
      (rw same at (create_account_transaction_sound receiver u is_u), cc)

  pay_out_sound :
      (receiver : Text) (t : Transfer Address) (rest : List (Transfer Address))
      (m : Settled (Transfer Address × Text))
      → prepared env receiver ≡ m
      → (pay_out env m).sent ≡ t ∷ rest
      → IsPaid receiver t (pay_out env m)
  unfolding pay_out unexpected IsTransfer
  pay_out_sound receiver t rest (rejected e) q h = absurd (cc)
  pay_out_sound receiver t rest (fulfilled (u, signature)) q h =
      let same : u ≡ t = cc in
      let (transfer, signed) = prepared_sound receiver signature u q in
      subst
        (λ (t : Transfer Address).
          IsPaid receiver t
            (record { sent = u ∷ []; reply = some (answer_of env (env.send u signature)) }))
        same
        (record {
          to_receiver = transfer.0;
          from_faucet = transfer.1;
          next = transfer.2;
          default_amount = transfer.3;
          hour = transfer.4;
          signature = signature;
          signed = signed;
          once = refl;
          replied = refl;
        })

  is_valid_post_sound :
      (receiver text : Text)
      → is_valid_post env receiver text ≡ true
      → (includes receiver text ≡ true) × (includes (codes "Concordium") text ≡ true)
  unfolding is_valid_post
  is_valid_post_sound receiver text h =
      (and_left (includes receiver text) _ h, and_right (includes receiver text) _ h)

  on_post_sound :
      (post_id receiver : Text) (t : Transfer Address) (rest : List (Transfer Address))
      (m : Settled (Option Text))
      → env.tweet_details post_id ≡ m
      → (on_post env receiver m).sent ≡ t ∷ rest
      → IsPublished post_id receiver × IsPaid receiver t (on_post env receiver m)
  unfolding on_post unexpected
  on_post_sound post_id receiver t rest (rejected e) q h = absurd (cc)
  on_post_sound post_id receiver t rest (fulfilled none) q h = absurd (cc)
  on_post_sound post_id receiver t rest (fulfilled (some text)) q h =
      elim (Bool-cases (is_valid_post env receiver text)) [
        | inr e ↦ absurd (cc (rw e at h))
        | inl e ↦
            let paid = pay_out_sound receiver t rest (prepared env receiver) refl (rw e at h) in
            let (named, keyword) = is_valid_post_sound receiver text e in
            (
              record {
                text = text;
                published = q;
                names_receiver = named;
                names_concordium = keyword;
              },
              rw e paid,
            )
      ]

  on_limit_sound :
      (post_id receiver : Text) (t : Transfer Address) (rest : List (Transfer Address))
      (m : Settled Bool)
      → (on_limit env post_id receiver m).sent ≡ t ∷ rest
      → (m ≡ fulfilled true)
        × IsPublished post_id receiver
        × IsPaid receiver t (on_limit env post_id receiver m)
  unfolding on_limit unexpected
  on_limit_sound post_id receiver t rest (rejected e) h = absurd (cc)
  on_limit_sound post_id receiver t rest (fulfilled false) h = absurd (cc)
  on_limit_sound post_id receiver t rest (fulfilled true) h =
      let (published, paid) =
        on_post_sound post_id receiver t rest (env.tweet_details post_id) refl h in
      (refl, published, paid)

  -- If a claim makes the faucet send a transfer, it sends only that one, the request is a POST,
  -- the usage check allows the receiver, the post with the given id was found and contains the
  -- receiver and the keyword, the transfer goes from the faucet to the receiver with the next
  -- nonce, the configured amount and an expiry of 60 minutes, it was signed, and the reply is that
  -- of the node.
  pub validate_and_claim-IsEarned :
      (method post_id receiver : Text) (t : Transfer Address) (rest : List (Transfer Address))
      → (validate_and_claim env method post_id receiver).sent ≡ t ∷ rest
      → IsEarned method post_id receiver t (validate_and_claim env method post_id receiver)
  unfolding validate_and_claim
  validate_and_claim-IsEarned method post_id receiver t rest h =
      elim (Bool-cases (eq_text method (codes "POST"))) [
        | inr e ↦ absurd (cc (rw e at h))
        | inl is_post ↦ elim (Bool-cases (is_empty env.explorer.sender_address)) [
          | inl e ↦ absurd (cc (rw e at (rw is_post at h)))
          | inr has_sender ↦ elim (Bool-cases (is_empty post_id || is_empty receiver)) [
            | inl e ↦ absurd (cc (rw e at (rw has_sender at (rw is_post at h))))
            | inr complete ↦
                let (within, post, paid) =
                  on_limit_sound post_id receiver t rest _
                    (rw complete at (rw has_sender at (rw is_post at h))) in
                record {
                  posts = (eq_text_iff method (codes "POST")).0 is_post;
                  within_limit = within;
                  post = post;
                  paid = rw is_post (rw has_sender (rw complete paid));
                }
          ]
        ]
      ]
