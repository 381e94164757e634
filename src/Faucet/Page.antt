-- ===== src/Faucet/Page.antt =====
-- testnet-faucet/src/pages/index.tsx: the state of the faucet's page, its handlers and effects, and
-- which fields and buttons are enabled. The requests to the server and `AccountAddress.fromBase58`
-- are parameters; the timer that clears an error is a step of its own.
pub mod Enabled
mod Tests
use concordium_dapp_examples.Common.{
  ◌≡◌, ◌++◌, Bool, true, false, ◌&&◌, ◌||◌, not, List, [], ◌∷◌, Option, none, some, Text, codes,
  Settled, fulfilled, rejected, is_empty, is_some, if◌then◌else◌,
}
use concordium_dapp_examples.Faucet.PostUrl.{extract_tweet_id}

pub record State : Type 0 where
  pub address : Text
  pub address_validation_error : Option Text
  pub tweet_posted_url : Text
  pub x_post_id : Option Text
  pub is_address_valid : Bool
  pub is_valid_tweet_url : Option Bool
  pub is_valid_verification : Option Bool
  pub is_verify_loading : Bool
  pub transaction_hash : Option Text
  pub error : Option Text
  pub turnstile_is_open : Bool

abbrev pub initial_state : State
initial_state = record {
  address = [];
  address_validation_error = none;
  tweet_posted_url = [];
  x_post_id = none;
  is_address_valid = false;
  is_valid_tweet_url = none;
  is_valid_verification = none;
  is_verify_loading = false;
  transaction_hash = none;
  error = none;
  turnstile_is_open = false;
}

on_tweet_id : Option Text → State → State
on_tweet_id none s = record s { is_valid_tweet_url = some false }
on_tweet_id (some []) s = record s { is_valid_tweet_url = some false }
on_tweet_id (some (c ∷ id)) s = record s {
  is_valid_tweet_url = some true;
  x_post_id = some (c ∷ id);
}

unfoldable pub handle_tweet_url_change : Text → State → State
unfolding on_tweet_id extract_tweet_id
handle_tweet_url_change value s =
    on_tweet_id (extract_tweet_id value) (record s {
      is_valid_tweet_url = none;
      is_valid_verification = none;
      tweet_posted_url = value;
    })

-- Opening the challenge.
unfoldable pub handle_verify : State → State
handle_verify s = record s { turnstile_is_open = true }

-- `handleVerifyTweetAndSendTokens` up to its request, which names the post and the address.
unfoldable pub start_claim : State → State × (Option Text × Text)
start_claim s =
    (record s { turnstile_is_open = false; is_verify_loading = true }, (s.x_post_id, s.address))

-- The server's answer to a claim: `response.ok`, and the fields of its body.
pub record ClaimResponse : Type 0 where
  pub ok : Bool
  pub error : Option Text
  pub transaction_hash : Option Text

abbrev text_falsy : Option Text → Bool
text_falsy none = true
text_falsy (some t) = is_empty t

unfoldable pub on_claim : Settled ClaimResponse → State → State
on_claim (rejected message) s = record s { is_verify_loading = false; error = some message }
on_claim (fulfilled r) s =
    if r.ok && text_falsy r.error
    then record s { is_valid_verification = some true }
    else record s { is_valid_verification = some false; is_verify_loading = false; error = r.error }

-- 15 seconds later.
unfoldable pub show_hash : Option Text → State → State
show_hash hash s = record s { transaction_hash = hash }

-- The answer of the usage check: `ok`, and `data.isAllowed`.
pub record LimitResponse : Type 0 where
  pub ok : Bool
  pub is_allowed : Bool

module _ (is_address : Text → Bool) where
  -- The effect on `address`: the address to be checked, if any.
  unfoldable pub address_effect : State → State × Option Text
  address_effect s =
      let cleared : State = record s {
        address_validation_error = none;
        is_address_valid = false;
      } in
      if is_empty s.address
      then (cleared, none)
      else if is_address s.address
      then (cleared, some s.address)
      else (
        record cleared {
          address_validation_error = some (codes "Invalid address. Please insert a valid one.");
        },
        none,
      )

  -- A change of the field, with the effect that follows it.
  unfoldable pub handle_address_change : Text → State → State × Option Text
  unfolding address_effect
  handle_address_change value s = address_effect (record s { address = value })

unfoldable pub on_limit : Text → Settled LimitResponse → State → State
on_limit limit_message (rejected message) s = s
on_limit limit_message (fulfilled r) s =
    if r.ok && not r.is_allowed
    then record s { address_validation_error = some limit_message }
    else record s { is_address_valid = true }

-- The button that shares the template, and the button that verifies the post.
unfoldable pub share_disabled : State → Bool
share_disabled s =
    is_empty s.address
    || is_some s.address_validation_error
    || not (is_empty s.tweet_posted_url)
    || not s.is_address_valid

abbrev is_true : Option Bool → Bool
is_true none = false
is_true (some b) = b

unfoldable pub verify_disabled : State → Bool
verify_disabled s =
    not (is_true s.is_valid_tweet_url) || is_true s.is_valid_verification || s.is_verify_loading

-- The page and the addresses whose checks are not answered.
pub record World : Type 0 where
  pub state : State
  pub checking : List Text

abbrev pub pending : Option Text → List Text
pending none = []
pending (some a) = a ∷ []

module _ (is_address : Text → Bool) (limit_message : Text) where
  pub data Step : World → World → Type 0 where
    address_typed :
        (w : World) (value : Text)
        → Step w (record {
          state = (handle_address_change is_address value w.state).0;
          checking = pending (handle_address_change is_address value w.state).1 ++ w.checking;
        })
    address_checked :
        (w : World) (before after : List Text) (a : Text) (r : Settled LimitResponse)
        → w.checking ≡ before ++ (a ∷ after)
        → Step w (record { state = on_limit limit_message r w.state; checking = before ++ after })
    url_typed :
        (w : World) (value : Text)
        → Step w (record w { state = handle_tweet_url_change value w.state })
    verify_clicked :
        (w : World)
        → verify_disabled w.state ≡ false
        → Step w (record w { state = handle_verify w.state })
    challenge_solved : (w : World) → Step w (record w { state = (start_claim w.state).0 })
    claim_answered :
        (w : World) (r : Settled ClaimResponse) → Step w (record w { state = on_claim r w.state })
    hash_shown :
        (w : World) (hash : Option Text) → Step w (record w { state = show_hash hash w.state })
    error_cleared : (w : World) → Step w (record w { state = record w.state { error = none } })

  pub data Reach : World → Type 0 where
    here : Reach (record { state = initial_state; checking = [] })
    next : {v w : World} → Reach v → Step v w → Reach w
