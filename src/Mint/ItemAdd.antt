-- ===== src/Mint/ItemAdd.antt =====
-- components/cis2/Cis2BatchItemMetadataAdd.tsx: the wizard of one token whose metadata is already
-- published. The metadata of a url is fetched while the first card stays on the screen, so a fetch
-- can settle late, and then calls back into the state of the wizard that it captured.
pub mod Loaded
mod Tests
use mathlib.Core.List.{Memᴰ}
use concordium_dapp_examples.Common.{
  ◌≡◌, Bool, true, false, not, List, [], ◌∷◌, Text, codes, Option, none, some, is_empty,
  if◌then◌else◌, Settled,
}
use concordium_dapp_examples.Mint.Types.{MetadataUrl}
use concordium_dapp_examples.Mint.Cards.{
  field_text, is_checked, TokenIdState, submit_token_id, QuantityState, submit_quantity,
}
use concordium_dapp_examples.Mint.LazyMetadata
use concordium_dapp_examples.Mint.LazyMetadata.{on_fetched}

pub data Steps : Type 0 where
  get_metadata_url get_token_id get_quantity mint : Steps

-- `GetMetadataUrlCardStep`, over a type `M` of metadata.
pub record UrlState (M : Type 0) : Type 0 where
  pub error : Option Text
  pub metadata_url : Option MetadataUrl
  pub metadata : Option M
  pub include_hash : Option Bool

abbrev pub url_of : Option MetadataUrl → Text
url_of none = []
url_of (some u) = u.url

abbrev pub is_set : Option Bool → Bool
is_set none = false
is_set (some b) = b

module _ {M : Type 0} where
  unfoldable pub submit_url : Option Text → Option Text → UrlState M → UrlState M
  submit_url url_field hash_field s =
      let url = field_text url_field in
      if is_empty url then record s { error = some (codes "Invalid Metadata Url") } else record s {
        metadata_url = some (record { url = url; hash = [] });
        error = some [];
        include_hash = some (is_checked hash_field);
      }

  -- `TokenImage` fetches the metadata.
  unfoldable pub fetches : UrlState M → Bool
  fetches s = not (is_empty (url_of s.metadata_url))

  -- `onMetadataLoaded`: the card's new state and the url that is handed on; `sha256` is the SDK's hash
  -- of a text, in hexadecimal.
  unfoldable pub on_metadata_loaded :
      (sha256 : Text → Text) → (captured : UrlState M) → Text → M → UrlState M × MetadataUrl
  on_metadata_loaded sha256 captured text m =
      let url : MetadataUrl = record {
        url = url_of captured.metadata_url;
        hash = if is_set captured.include_hash then sha256 text else [];
      } in
      (record captured { metadata = some m; metadata_url = some url }, url)

-- The wizard of a token.
pub record State (M : Type 0) : Type 0 where
  pub step : Steps
  pub token_id : Text
  pub metadata : Option M
  pub metadata_url : Option MetadataUrl
  pub quantity : Option Text

-- What `props.onDone` is called with; `state.metadataUrl!` is the option itself.
pub record Added : Type 0 where
  pub token_id : Text
  pub metadata_url : Option MetadataUrl
  pub quantity : Text

-- What the `switch` renders.
pub data Content : Type 0 where
  url_card : Content
  token_id_card : (token_id : Text) → Content
  quantity_card : (token_id : Text) → Content
  mint_card :
      (token_id : Text) (metadata_url : Option MetadataUrl) (quantity : Option Text) → Content

module _ {M : Type 0} where
  unfoldable pub initial_state : Text → State M
  initial_state id = record {
    step = get_metadata_url;
    token_id = id;
    metadata = none;
    metadata_url = none;
    quantity = none;
  }

  unfoldable pub metadata_url_updated : (captured : State M) → MetadataUrl → M → State M
  metadata_url_updated captured url m = record captured {
    metadata_url = some url;
    metadata = some m;
    step = get_token_id;
  }

  unfoldable pub token_id_updated : Text → State M → State M
  token_id_updated id s = record s { token_id = id; step = get_quantity }

  unfoldable pub quantity_updated : Text → Text → State M → State M × Added
  quantity_updated id quantity s = (
    record s { step = mint; token_id = id; quantity = some quantity },
    record { token_id = id; metadata_url = s.metadata_url; quantity = quantity },
  )

  content_of : Steps → Text → State M → Content
  content_of get_metadata_url proposed s = url_card
  content_of get_token_id proposed s = token_id_card proposed
  content_of get_quantity proposed s = quantity_card s.token_id
  content_of mint proposed s = mint_card s.token_id s.metadata_url s.quantity

  -- The first card of the id is always offered the proposed id, `props.tokenId`.
  unfoldable pub content : Text → State M → Content
  unfolding content_of
  content proposed s = content_of s.step proposed s

-- A fetch that was started: the states of the wizard and of the first card that its callback reads.
pub record Fetch (M : Type 0) : Type 0 where
  pub wizard : State M
  pub card : UrlState M

-- The wizard, every fetch that was started, the texts that arrived with their urls, and the calls of
-- `props.onDone`.
pub record World (M : Type 0) : Type 0 where
  pub state : State M
  pub fetches_started : List (Fetch M)
  pub loaded : List (Text × Text)
  pub handed_on : List Added

module _ {M : Type 0} (sha256 : Text → Text) (parse : Text → Settled M) (proposed : Text) where
  pub data Step : World M → World M → Type 0 where
    fetching :
        (w : World M) (card : UrlState M)
        → content proposed w.state ≡ url_card
        → fetches card ≡ true
        → Step w (record w {
          fetches_started = record { wizard = w.state; card = card } ∷ w.fetches_started;
        })
    arrived :
        (w : World M) (f : Fetch M) (display : LazyMetadata.State M) (r : Settled Text)
        (text : Text) (m : M)
        → Memᴰ f w.fetches_started
        → (on_fetched parse display r).1 ≡ some text
        → Step w (record w {
          state = metadata_url_updated f.wizard (on_metadata_loaded sha256 f.card text m).1 m;
          loaded = (url_of f.card.metadata_url, text) ∷ w.loaded;
        })
    named :
        (w : World M) (t : Text) (field : Option Text) (card : TokenIdState) (id : Text)
        → content proposed w.state ≡ token_id_card t
        → (submit_token_id field card).1 ≡ some id
        → Step w (record w { state = token_id_updated id w.state })
    counted :
        (w : World M) (t : Text) (field : Option Text) (card : QuantityState) (id quantity : Text)
        → content proposed w.state ≡ quantity_card t
        → (submit_quantity t field card).1 ≡ some (id, quantity)
        → Step w (record w {
          state = (quantity_updated id quantity w.state).0;
          handed_on = (quantity_updated id quantity w.state).1 ∷ w.handed_on;
        })

  unfoldable pub start : World M
  start = record {
    state = initial_state proposed;
    fetches_started = [];
    loaded = [];
    handed_on = [];
  }

  pub data Reach : World M → Type 0 where
    here : Reach start
    next : {w v : World M} → Reach w → Step w v → Reach v
