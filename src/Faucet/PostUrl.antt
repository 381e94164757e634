-- ===== src/Faucet/PostUrl.antt =====
-- testnet-faucet/src/lib/utils.ts, `extractITweetdFromUrl`: the id in the link of a post.
pub mod Shape
mod Tests
use concordium_dapp_examples.Common.{
  ◌≡◌, refl, ℕ, ◌&&◌, Bool, true, false, [], ◌∷◌, Option, none, some, Text, codes, leb, ◌==◌,
  if◌then◌else◌,
}

-- `\d`
abbrev pub is_digit : ℕ → Bool
is_digit c = leb b'0' c && leb c b'9'

all_digit : Text → Bool
all_digit [] = true
all_digit (c ∷ s) = is_digit c && all_digit s

-- What follows a fixed text.
strip_prefix : Text → Text → Option Text
strip_prefix [] s = some s
strip_prefix (p ∷ q) [] = none
strip_prefix (p ∷ q) (c ∷ s) = if p == c then strip_prefix q s else none

abbrev cons_first : ℕ → Option (Text × Text) → Option (Text × Text)
cons_first c none = none
cons_first c (some (a, r)) = some (c ∷ a, r)

-- The text in front of the first slash, and the text behind it.
split_slash : Text → Option (Text × Text)
split_slash [] = none
split_slash (c ∷ s) = if c == b'/' then some ([], s) else cons_first c (split_slash s)

-- `(\d+)$`
digits_only : Text → Option Text
unfolding all_digit
digits_only [] = none
digits_only (c ∷ s) = if all_digit (c ∷ s) then some (c ∷ s) else none

infixl 5 ◌>>=◌
abbrev ◌>>=◌ {ℓ κ} : {A : Type ℓ} {B : Type κ} → Option A → (A → Option B) → Option B
none >>= f = none
some a >>= f = f a

abbrev first_some : Option Text → Option Text → Option Text
first_some none o = o
first_some (some t) o = some t

>>=-eq-some {ℓ κ} :
    {A : Type ℓ} {B : Type κ} (m : Option A) (f : A → Option B) {b : B}
    → (m >>= f) ≡ some b
    → (a : A) × (m ≡ some a) × (f a ≡ some b)
>>=-eq-some none f h = cc
>>=-eq-some (some a) f h = (a, refl, h)

-- `(x\.com|twitter\.com)\/`
after_host : Text → Option Text
unfolding strip_prefix
after_host s = first_some (strip_prefix (codes "x.com/") s) (strip_prefix (codes "twitter.com/") s)

abbrev user_rest : Text × Text → Option Text
user_rest ([], r) = none
user_rest (c ∷ user, r) = some r

-- `[^\/]+\/`, which stops at the first slash.
after_user : Text → Option Text
unfolding split_slash
after_user s = split_slash s >>= user_rest

unfoldable pub extract_tweet_id : Text → Option Text
unfolding strip_prefix after_host after_user digits_only
extract_tweet_id url = do
  host ← strip_prefix (codes "https://") url
  user ← after_host host
  status ← after_user user
  id ← strip_prefix (codes "status/") status
  digits_only id
