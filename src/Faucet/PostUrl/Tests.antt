-- ===== src/Faucet/PostUrl/Tests.antt =====
-- Links of posts.
use concordium_dapp_examples.Common.{◌≡◌, refl, ◌↔◌, none, some, codes}
use concordium_dapp_examples.Faucet.PostUrl.{extract_tweet_id}
use concordium_dapp_examples.Faucet.PostUrl.Shape.{IsPost, extract_tweet_id_iff}

post : extract_tweet_id (codes "https://x.com/alice/status/123") ≡ some (codes "123")
unfolding extract_tweet_id
post = refl

no_user : extract_tweet_id (codes "https://x.com//status/123") ≡ none
unfolding extract_tweet_id
no_user = refl

trailing : extract_tweet_id (codes "https://twitter.com/alice/status/123?s=20") ≡ none
unfolding extract_tweet_id
trailing = refl

extract_tweet_id_iff_example :
    (extract_tweet_id (codes "https://twitter.com/bob/status/42") ≡ some (codes "42"))
    ↔ IsPost (codes "https://twitter.com/bob/status/42") (codes "42")
extract_tweet_id_iff_example =
    extract_tweet_id_iff (codes "https://twitter.com/bob/status/42") (codes "42")
