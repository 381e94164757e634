-- ===== src/Mint/ItemAdd/Loaded.antt =====
-- What is known of a token when its wizard hands it on, in whatever order the fetches settle.
use mathlib.Core.List.{Memᴰ}
use mathlib.Core.Path.{subst}
use concordium_dapp_examples.Common.{
  ◌≡◌, refl, sym, ◌∙◌, ◌⊎◌, inl, inr, Bool, true, false, List, [], ◌∷◌, Text, some, is_empty,
  Settled, arith, All, All-imp, All-mem, if◌then◌else◌,
}
use concordium_dapp_examples.Mint.Types.{MetadataUrl}
use concordium_dapp_examples.Mint.ItemPrepare.Cards.{
  IsQuantity, submit_token_id-some, submit_quantity-some,
}
use concordium_dapp_examples.Mint.ItemAdd.{
  Steps, get_metadata_url, get_token_id, get_quantity, mint, UrlState, url_of, is_set, fetches,
  on_metadata_loaded, State, Added, token_id_card, quantity_card, initial_state,
  metadata_url_updated, token_id_updated, quantity_updated, content_of, content, World, Step,
  fetching, arrived, named, counted, start, Reach, here, next,
}

-- The metadata url has a url; a text was loaded from it, and the hash, if there is one, is its hash.
pub record IsLoaded (sha256 : Text → Text) (loaded : List (Text × Text)) (url : MetadataUrl)
    : Type 0 where
  pub text : Text
  pub has_url : is_empty url.url ≡ false
  pub was_loaded : Memᴰ (url.url, text) loaded
  pub is_hash : (url.hash ≡ []) ⊎ (url.hash ≡ sha256 text)

-- A token that is ready to be minted.
pub record IsReady (sha256 : Text → Text) (loaded : List (Text × Text)) (t : Added) : Type 0 where
  pub url : MetadataUrl
  pub is_given : t.metadata_url ≡ some url
  pub is_loaded : IsLoaded sha256 loaded url
  pub is_named : is_empty t.token_id ≡ false
  pub is_counted : IsQuantity t.quantity

IsLoaded-grow :
    (sha256 : Text → Text) (loaded : List (Text × Text)) (x : Text × Text) (url : MetadataUrl)
    → IsLoaded sha256 loaded url
    → IsLoaded sha256 (x ∷ loaded) url
IsLoaded-grow sha256 loaded x url h = record {
  text = h.text;
  has_url = h.has_url;
  was_loaded = Memᴰ.tail h.was_loaded;
  is_hash = h.is_hash;
}

IsReady-grow :
    (sha256 : Text → Text) (loaded : List (Text × Text)) (x : Text × Text) (t : Added)
    → IsReady sha256 loaded t
    → IsReady sha256 (x ∷ loaded) t
IsReady-grow sha256 loaded x t h = record {
  url = h.url;
  is_given = h.is_given;
  is_loaded = IsLoaded-grow sha256 loaded x h.url h.is_loaded;
  is_named = h.is_named;
  is_counted = h.is_counted;
}

is_hash_of :
    (sha256 : Text → Text) (text : Text) (b : Bool)
    → ((if b then sha256 text else []) ≡ []) ⊎ ((if b then sha256 text else []) ≡ sha256 text)
is_hash_of sha256 text true = inr refl
is_hash_of sha256 text false = inl refl

module _ {M : Type 0} where
  at_token_id :
      (step : Steps) (proposed : Text) (s : State M) (t : Text)
      → content_of step proposed s ≡ token_id_card t
      → step ≡ get_token_id
  unfolding content_of
  at_token_id get_metadata_url proposed s t h = absurd (cc)
  at_token_id get_token_id proposed s t h = refl
  at_token_id get_quantity proposed s t h = absurd (cc)
  at_token_id mint proposed s t h = absurd (cc)

  at_quantity :
      (step : Steps) (proposed : Text) (s : State M) (t : Text)
      → content_of step proposed s ≡ quantity_card t
      → (step ≡ get_quantity) × (s.token_id ≡ t)
  unfolding content_of
  at_quantity get_metadata_url proposed s t h = absurd (cc)
  at_quantity get_token_id proposed s t h = absurd (cc)
  at_quantity get_quantity proposed s t h = (refl, cc)
  at_quantity mint proposed s t h = absurd (cc)

module _ {M : Type 0} (sha256 : Text → Text) (parse : Text → Settled M) (proposed : Text) where
  abbrev HasUrl : State M → List (Text × Text) → Type 0
  HasUrl s loaded = (url : MetadataUrl) × (s.metadata_url ≡ some url) × IsLoaded sha256 loaded url

  -- What each step holds.
  abbrev Holds : Steps → State M → List (Text × Text) → Type 0
  Holds get_metadata_url s loaded = Unit {0}
  Holds get_token_id s loaded = HasUrl s loaded
  Holds get_quantity s loaded = HasUrl s loaded × (is_empty s.token_id ≡ false)
  Holds mint s loaded = Unit {0}

  record IsOrderly (w : World M) : Type 0 where
    holds : Holds w.state.step w.state w.loaded
    fetched : All (λ f. fetches f.card ≡ true) w.fetches_started
    ready : All (IsReady sha256 w.loaded) w.handed_on

  on_metadata_loaded-IsLoaded :
      (card : UrlState M) (loaded : List (Text × Text)) (text : Text) (m : M)
      → fetches card ≡ true
      → IsLoaded sha256
          ((url_of card.metadata_url, text) ∷ loaded)
          (on_metadata_loaded sha256 card text m).1
  unfolding fetches on_metadata_loaded
  on_metadata_loaded-IsLoaded card loaded text m h = record {
    text = text;
    has_url = ground arith;
    was_loaded = Memᴰ.head refl;
    is_hash = is_hash_of sha256 text (is_set card.include_hash);
  }

  Step-IsOrderly : {w v : World M} → Step sha256 parse proposed w v → IsOrderly w → IsOrderly v
  unfolding content metadata_url_updated token_id_updated quantity_updated
  Step-IsOrderly (fetching w card e d) h = record {
    holds = h.holds;
    fetched = (d, h.fetched);
    ready = h.ready;
  }
  Step-IsOrderly (arrived w f display r text m started done) h =
      let fetched_it = All-mem (λ g. fetches g.card ≡ true) f w.fetches_started started h.fetched in
      record {
        holds = (
          (on_metadata_loaded sha256 f.card text m).1,
          refl,
          on_metadata_loaded-IsLoaded f.card w.loaded text m fetched_it,
        );
        fetched = h.fetched;
        ready =
            All-imp (IsReady sha256 w.loaded) _ w.handed_on (IsReady-grow sha256 w.loaded _)
              h.ready;
      }
  Step-IsOrderly (named w t field card id e d) h =
      let at = at_token_id w.state.step proposed w.state t e in
      let known = subst (λ x. Holds x w.state w.loaded) at h.holds in
      record {
        holds = (known, submit_token_id-some field card id d);
        fetched = h.fetched;
        ready = h.ready;
      }
  Step-IsOrderly (counted w t field card id quantity e d) h =
      let (at, same) = at_quantity w.state.step proposed w.state t e in
      let ((url, given, was_loaded), has_name) = subst (λ x. Holds x w.state w.loaded) at h.holds in
      let (id_same, q) = submit_quantity-some t field card id quantity d in
      record {
        holds = tt;
        fetched = h.fetched;
        ready = (
          record {
            url = url;
            is_given = given;
            is_loaded = was_loaded;
            is_named = subst (λ x. is_empty x ≡ false) (same ∙ sym id_same) has_name;
            is_counted = q;
          },
          h.ready,
        );
      }

  Reach-IsOrderly : {w : World M} → Reach sha256 parse proposed w → IsOrderly w
  unfolding start initial_state
  Reach-IsOrderly here = record { holds = tt; fetched = tt; ready = tt }
  Reach-IsOrderly (next r s) = Step-IsOrderly s (Reach-IsOrderly r)

  -- In whatever order the fetches of metadata settle, every token that the wizard of an added url
  -- hands on has an id, a metadata url that is not empty and from which a text was loaded, with no
  -- hash or the hash of that text, and a quantity from which parseInt reads a number other than 0.
  pub handed_on-IsReady :
      {w : World M} (t : Added)
      → Reach sha256 parse proposed w
      → Memᴰ t w.handed_on
      → IsReady sha256 w.loaded t
  handed_on-IsReady {w} t r m =
      All-mem (IsReady sha256 w.loaded) t w.handed_on m (Reach-IsOrderly r).ready
