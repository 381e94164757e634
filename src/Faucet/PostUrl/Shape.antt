-- ===== src/Faucet/PostUrl/Shape.antt =====
-- Which links have an id.
use mathlib.Core.Path.{subst}
use concordium_dapp_examples.Common.{
  ◌≡◌, ◌≢◌, ◌↔◌, ◌⊎◌, inl, inr, refl, ap, ◌∙◌, ◌++◌, true, [], ◌∷◌, Option, none, some, Text, codes,
  Bool-cases, All, arith,
}
use concordium_dapp_examples.Faucet.PostUrl.{
  ◌>>=◌, >>=-eq-some, user_rest, first_some, is_digit, all_digit, strip_prefix, split_slash,
  digits_only, after_host, after_user, extract_tweet_id,
}

strip_prefix-append : (p r : Text) → strip_prefix p (p ++ r) ≡ some r
unfolding strip_prefix
strip_prefix-append [] r = refl
strip_prefix-append (c ∷ p) r = ground (arith, strip_prefix-append p r)

strip_prefix_sound : (p s r : Text) → strip_prefix p s ≡ some r → s ≡ p ++ r
unfolding strip_prefix
strip_prefix_sound [] s r h = cc
strip_prefix_sound (d ∷ p) [] r h = absurd (cc)
strip_prefix_sound (d ∷ p) (c ∷ s) r h = ground (arith, strip_prefix_sound p s r)

abbrev pub NoSlash : Text → Type 0
NoSlash = All (λ c. c ≢ b'/')

split_slash-append : (a r : Text) → NoSlash a → split_slash (a ++ (b'/' ∷ r)) ≡ some (a, r)
unfolding split_slash
split_slash-append [] r h = refl
split_slash-append (c ∷ a) r (hc, ha) = ground (arith, split_slash-append a r ha)

split_slash_sound : (s a r : Text) → split_slash s ≡ some (a, r) → (s ≡ a ++ (b'/' ∷ r)) × NoSlash a
unfolding split_slash
split_slash_sound [] a r h = absurd (cc)
split_slash_sound (c ∷ s) [] r h = ground arith
split_slash_sound (c ∷ s) (d ∷ a) r h = ground (arith, split_slash_sound s a r)

all_digit_iff : (s : Text) → (all_digit s ≡ true) ↔ All (λ c. is_digit c ≡ true) s
unfolding all_digit
all_digit_iff [] = (λ _. tt, λ _. refl)
all_digit_iff (c ∷ s) = (
  λ h. (ground arith, (all_digit_iff s).0 (ground arith)),
  λ h. ground (arith, (all_digit_iff s).1 h.1),
)

abbrev pub Digits : Text → Type 0
Digits = All (λ c. is_digit c ≡ true)

digits_only_sound : (s id : Text) → digits_only s ≡ some id → (s ≡ id) × (id ≢ []) × Digits id
unfolding digits_only
digits_only_sound [] id h = absurd (cc)
digits_only_sound (c ∷ s) id h = elim (Bool-cases (all_digit (c ∷ s))) [
  | inl e ↦
      let same : (c ∷ s) ≡ id = cc (rw (e, digits_only) at h) in
      (same, (λ empty. absurd (cc)), subst Digits same ((all_digit_iff (c ∷ s)).0 e))
  | inr e ↦ absurd (cc (rw (e, digits_only) at h))
]

digits_only_complete : (id : Text) → id ≢ [] → Digits id → digits_only id ≡ some id
unfolding digits_only
digits_only_complete [] ne h = absurd (ne refl)
digits_only_complete (c ∷ s) ne h = rw ((all_digit_iff (c ∷ s)).1 h, digits_only) refl

-- `https://`, one of the two hosts, a user, `/status/` and digits.
pub record IsPost (url id : Text) : Type 0 where
  pub host : Text
  pub user : Text
  pub known : (host ≡ codes "x.com") ⊎ (host ≡ codes "twitter.com")
  pub has_user : user ≢ []
  pub no_slash : NoSlash user
  pub has_digit : id ≢ []
  pub digits : Digits id
  pub spelled :
      url ≡ codes "https://" ++ (host ++ (codes "/" ++ (user ++ (codes "/status/" ++ id))))

after_user_sound :
    (s r : Text)
    → after_user s ≡ some r
    → (user : Text) × (user ≢ []) × NoSlash user × (s ≡ user ++ (b'/' ∷ r))
unfolding after_user
after_user_sound s r h = go (split_slash s) refl h
  where
    go :
        (o : Option (Text × Text))
        → split_slash s ≡ o
        → (o >>= user_rest) ≡ some r
        → (user : Text) × (user ≢ []) × NoSlash user × (s ≡ user ++ (b'/' ∷ r))
    go none e h = absurd (cc)
    go (some ([], t)) e h = absurd (cc)
    go (some (c ∷ user, t)) e h =
        let (spelled, clean) = split_slash_sound s (c ∷ user) t e in
        (c ∷ user, (λ empty. absurd (cc)), clean, cc)

after_user_complete :
    (user r : Text) → user ≢ [] → NoSlash user → after_user (user ++ (b'/' ∷ r)) ≡ some r
unfolding after_user
after_user_complete [] r ne h = absurd (ne refl)
after_user_complete (c ∷ user) r ne h = rw (split_slash-append (c ∷ user) r h) refl

after_host_sound :
    (s r : Text)
    → after_host s ≡ some r
    → (host : Text) × ((host ≡ codes "x.com") ⊎ (host ≡ codes "twitter.com"))
      × (s ≡ host ++ (b'/' ∷ r))
unfolding after_host
after_host_sound s r h = go (strip_prefix (codes "x.com/") s) refl h
  where
    go :
        (o : Option Text)
        → strip_prefix (codes "x.com/") s ≡ o
        → first_some o (strip_prefix (codes "twitter.com/") s) ≡ some r
        → (host : Text) × ((host ≡ codes "x.com") ⊎ (host ≡ codes "twitter.com"))
          × (s ≡ host ++ (b'/' ∷ r))
    go none e h = (codes "twitter.com", inr refl, strip_prefix_sound (codes "twitter.com/") s r h)
    go (some t) e h = (codes "x.com", inl refl, strip_prefix_sound (codes "x.com/") s r (e ∙ h))

after_host_complete :
    (host r : Text)
    → (host ≡ codes "x.com") ⊎ (host ≡ codes "twitter.com")
    → after_host (host ++ (b'/' ∷ r)) ≡ some r
unfolding after_host strip_prefix
after_host_complete host r (inl e) = rw e refl
after_host_complete host r (inr e) = rw e refl

extract_tweet_id_sound : (url id : Text) → extract_tweet_id url ≡ some id → IsPost url id
unfolding extract_tweet_id
extract_tweet_id_sound url id h =
    let (s, is_s, h) = >>=-eq-some (strip_prefix (codes "https://") url) _ h in
    let (t, is_t, h) = >>=-eq-some (after_host s) _ h in
    let (u, is_u, h) = >>=-eq-some (after_user t) _ h in
    let (v, is_v, h) = >>=-eq-some (strip_prefix (codes "status/") u) _ h in
    let (host, known, s_spelled) = after_host_sound s t is_t in
    let (user, has_user, clean, t_spelled) = after_user_sound t u is_u in
    let (same, has_digit, digits) = digits_only_sound v id h in
    let url_spelled = strip_prefix_sound (codes "https://") url s is_s in
    let u_spelled = strip_prefix_sound (codes "status/") u v is_v in
    record {
      host = host;
      user = user;
      known = known;
      has_user = has_user;
      no_slash = clean;
      has_digit = has_digit;
      digits = digits;
      spelled = cc;
    }

extract_tweet_id_complete : (url id : Text) → IsPost url id → extract_tweet_id url ≡ some id
unfolding extract_tweet_id strip_prefix
extract_tweet_id_complete url id p = ap extract_tweet_id p.spelled ∙ steps
  where
    steps :
        extract_tweet_id
          (codes "https://" ++ (p.host ++ (codes "/" ++ (p.user ++ (codes "/status/" ++ id)))))
        ≡ some id
    steps =
        rw
          (
            after_host_complete p.host (p.user ++ (codes "/status/" ++ id)) p.known,
            after_user_complete p.user (codes "status/" ++ id) p.has_user p.no_slash,
          )
          (digits_only_complete id p.has_digit p.digits)

-- An id is extracted from a link exactly when the link is https, one of the two hosts, a user
-- without a slash, status, and the id, which is made of one or more digits.
pub extract_tweet_id_iff : (url id : Text) → (extract_tweet_id url ≡ some id) ↔ IsPost url id
extract_tweet_id_iff url id = (extract_tweet_id_sound url id, extract_tweet_id_complete url id)
