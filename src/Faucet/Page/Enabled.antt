-- ===== src/Faucet/Page/Enabled.antt =====
-- When the buttons are enabled.
use mathlib.Core.Path.{subst}
use concordium_dapp_examples.Common.{
  ℕ, ◌≡◌, refl, ap, ◌++◌, Bool, true, false, ◌||◌, not, List, [], ◌∷◌, Option, none, some, Text,
  Settled, fulfilled, rejected, arith, if◌then◌else◌,
}
use concordium_dapp_examples.Faucet.PostUrl.{extract_tweet_id}
use concordium_dapp_examples.Faucet.Page.{
  State, on_tweet_id, handle_tweet_url_change, handle_verify, start_claim, ClaimResponse, on_claim,
  show_hash, LimitResponse, address_effect, handle_address_change, on_limit, share_disabled,
  is_true, verify_disabled, World, pending, Step, address_typed, address_checked, url_typed,
  verify_clicked, challenge_solved, claim_answered, hash_shown, error_cleared, Reach, here, next,
}

-- A link that counts as valid is the one in the field, and its id is the stored one.
abbrev pub IsRead : State → Type 0
IsRead s =
    s.is_valid_tweet_url ≡ some true
    → (id : Text) × (s.x_post_id ≡ some id) × (extract_tweet_id s.tweet_posted_url ≡ some id)

on_tweet_id-IsRead :
    (o : Option Text) (s : State)
    → extract_tweet_id s.tweet_posted_url ≡ o
    → IsRead (on_tweet_id o s)
unfolding on_tweet_id
on_tweet_id-IsRead none s e h = absurd (cc)
on_tweet_id-IsRead (some []) s e h = absurd (cc)
on_tweet_id-IsRead (some (c ∷ id)) s e h = (c ∷ id, refl, e)

if_IsRead : (b : Bool) (s t : State) → IsRead s → IsRead t → IsRead (if b then s else t)
if_IsRead true s t hs ht = hs
if_IsRead false s t hs ht = ht

on_claim-IsRead : (r : Settled ClaimResponse) (s : State) → IsRead s → IsRead (on_claim r s)
unfolding on_claim
on_claim-IsRead (rejected m) s h = h
on_claim-IsRead (fulfilled r) s h = if_IsRead _ _ _ h h

enabled_valid : (o : Option Bool) (a b : Bool) → (not (is_true o) || a || b) ≡ false → o ≡ some true
enabled_valid none a b h = absurd (cc)
enabled_valid (some false) a b h = absurd (cc)
enabled_valid (some true) a b h = refl

module _ (is_address : Text → Bool) (limit_message : Text) where
  on_limit-IsRead :
      (r : Settled LimitResponse) (s : State) → IsRead s → IsRead (on_limit limit_message r s)
  unfolding on_limit
  on_limit-IsRead (rejected m) s h = h
  on_limit-IsRead (fulfilled r) s h = if_IsRead _ _ _ h h

  address_effect-IsRead : (s : State) → IsRead s → IsRead (address_effect is_address s).0
  unfolding address_effect
  address_effect-IsRead s h = ground (arith, h)

  Step-IsRead : {v w : World} → Step is_address limit_message v w → IsRead v.state → IsRead w.state
  unfolding handle_address_change handle_tweet_url_change handle_verify start_claim show_hash
  Step-IsRead (address_typed v value) h =
      address_effect-IsRead (record v.state { address = value }) h
  Step-IsRead (address_checked v before after a r e) h = on_limit-IsRead r v.state h
  Step-IsRead (url_typed v value) h = on_tweet_id-IsRead (extract_tweet_id value) _ refl
  Step-IsRead (verify_clicked v e) h = h
  Step-IsRead (challenge_solved v) h = h
  Step-IsRead (claim_answered v r) h = on_claim-IsRead r v.state h
  Step-IsRead (hash_shown v hash) h = h
  Step-IsRead (error_cleared v) h = h

  Reach-IsRead : {w : World} → Reach is_address limit_message w → IsRead w.state
  Reach-IsRead here = λ h. absurd (cc)
  Reach-IsRead (next r st) = Step-IsRead st (Reach-IsRead r)

  valid_of_enabled : (s : State) → verify_disabled s ≡ false → s.is_valid_tweet_url ≡ some true
  unfolding verify_disabled
  valid_of_enabled s h = enabled_valid s.is_valid_tweet_url _ _ h

  -- On every page that can be reached, if the verify button is enabled, the link in the field has
  -- an id, and a claim started there is for that id and the address in the field.
  pub Reach-start_claim :
      {w : World}
      → Reach is_address limit_message w
      → verify_disabled w.state ≡ false
      → (id : Text) × (extract_tweet_id w.state.tweet_posted_url ≡ some id)
        × ((start_claim w.state).1 ≡ (some id, w.state.address))
  unfolding start_claim
  Reach-start_claim {w} r h =
      let (id, stored, read) = Reach-IsRead r (valid_of_enabled w.state h) in
      (id, read, ap (λ o. (o, w.state.address)) stored)

  typed : ℕ → Text → State → State
  typed x c s = record s {
    address = x ∷ c;
    address_validation_error = none;
    is_address_valid = false;
  }

  address_typed_lem :
      (x : ℕ) (c : Text) (s : State)
      → is_address (x ∷ c) ≡ true
      → handle_address_change is_address (x ∷ c) s ≡ (typed x c s, some (x ∷ c))
  unfolding handle_address_change address_effect typed
  address_typed_lem x c s h = rw h refl

  Reach-typed :
      (x : ℕ) (c : Text) (s : State) (l : List Text)
      → is_address (x ∷ c) ≡ true
      → Reach is_address limit_message (record { state = s; checking = l })
      → Reach is_address limit_message (record { state = typed x c s; checking = (x ∷ c) ∷ l })
  Reach-typed x c s l h r =
      subst
        (λ (q : State × Option Text).
          Reach is_address limit_message (record { state = q.0; checking = pending q.1 ++ l }))
        (address_typed_lem x c s h) (next r (address_typed _ (x ∷ c)))

  -- For any two texts that are addresses, the page can be reached in which the field holds the
  -- second, its usage check is not answered, and the button that shares is enabled.
  pub Reach-unchecked :
      (x y : ℕ) (c d : Text)
      → is_address (x ∷ c) ≡ true
      → is_address (y ∷ d) ≡ true
      → (w : World) × Reach is_address limit_message w
        × (w.state.address ≡ y ∷ d)
        × (w.checking ≡ (y ∷ d) ∷ [])
        × (share_disabled w.state ≡ false)
  unfolding share_disabled on_limit typed
  Reach-unchecked x y c d first second =
      let r = Reach-typed y d _ _ second (Reach-typed x c _ _ first here) in
      (
        _,
        next r (
            address_checked _ ((y ∷ d) ∷ []) [] (x ∷ c)
              (fulfilled (record { ok = true; is_allowed = true })) refl),
        refl,
        refl,
        refl,
      )
