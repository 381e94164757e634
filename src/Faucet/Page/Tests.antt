-- ===== src/Faucet/Page/Tests.antt =====
-- The page after a link was typed.
use concordium_dapp_examples.Common.{◌≡◌, refl, true, [], some, Text, codes}
use concordium_dapp_examples.Faucet.PostUrl.{extract_tweet_id}
use concordium_dapp_examples.Faucet.Page.{
  initial_state, handle_tweet_url_change, start_claim, verify_disabled, World, url_typed, here,
  next,
}
use concordium_dapp_examples.Faucet.Page.Enabled.{Reach-start_claim}

abbrev typed : World
typed = record {
  state = handle_tweet_url_change (codes "https://x.com/bob/status/42") initial_state;
  checking = [];
}

Reach-start_claim_example :
    (id : Text) × (extract_tweet_id typed.state.tweet_posted_url ≡ some id)
    × ((start_claim typed.state).1 ≡ (some id, typed.state.address))
unfolding handle_tweet_url_change verify_disabled
Reach-start_claim_example =
    Reach-start_claim (λ t. true) (codes "Too early")
      (next here (url_typed _ (codes "https://x.com/bob/status/42"))) refl
