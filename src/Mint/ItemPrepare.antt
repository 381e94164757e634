-- ===== src/Mint/ItemPrepare.antt =====
-- components/cis2/Cis2BatchItemMetadataPrepare.tsx: the wizard that leads through the cards of one
-- uploaded file. A step of the model is a call of `onDone` by the card that is rendered, with what
-- that card's handler hands on, whatever the card's own state.
pub mod Cards
pub mod HandedOn
mod Tests
use concordium_dapp_examples.Common.{◌≡◌, List, [], ◌∷◌, Text, Option, some, Settled}
use concordium_dapp_examples.Mint.Types.{MetadataUrl, NamedToken}
use concordium_dapp_examples.Mint.Cards.{
  TokenIdState, submit_token_id, QuantityState, submit_quantity, ImageState, on_image, Metadata,
  MetadataForm, MetadataState, on_metadata,
}

pub data Steps : Type 0 where
  get_token_id upload_image create_metadata get_quantity mint : Steps

pub record State : Type 0 where
  pub step : Steps
  pub token_id : Text
  pub image_ipfs_url : Text
  pub metadata_url : MetadataUrl
  pub quantity : Text

unfoldable pub initial_state : Text → State
initial_state id = record {
  step = get_token_id;
  token_id = id;
  image_ipfs_url = [];
  metadata_url = record { url = []; hash = [] };
  quantity = [];
}

unfoldable pub token_id_updated : Text → State → State
token_id_updated id s = record s { token_id = id; step = upload_image }

unfoldable pub image_uploaded : Text → Text → State → State
image_uploaded id url s = record s { token_id = id; step = create_metadata; image_ipfs_url = url }

unfoldable pub metadata_uploaded : Text → MetadataUrl → State → State
metadata_uploaded id url s = record s { token_id = id; step = get_quantity; metadata_url = url }

-- `quantityUpdated`: the new state, and what `props.onDone` is called with.
unfoldable pub quantity_updated : Text → Text → State → State × NamedToken
quantity_updated id quantity s = (
  record s { step = mint; token_id = id; quantity = quantity },
  record {
    token_id = id;
    token_info = record { metadata_url = s.metadata_url; quantity = quantity };
  },
)

-- What the `switch` renders, with the properties that the cards read.
pub data Content : Type 0 where
  token_id_card : (token_id : Text) → Content
  image_card : (token_id : Text) → Content
  metadata_card : (token_id image_ipfs_url : Text) → Content
  quantity_card : (token_id : Text) → Content
  mint_card :
      (token_id image_ipfs_url : Text) (metadata_url : MetadataUrl) (quantity : Text) → Content

content_of : Steps → State → Content
content_of get_token_id s = token_id_card s.token_id
content_of upload_image s = image_card s.token_id
content_of create_metadata s = metadata_card s.token_id s.image_ipfs_url
content_of get_quantity s = quantity_card s.token_id
content_of mint s = mint_card s.token_id s.image_ipfs_url s.metadata_url s.quantity

unfoldable pub content : State → Content
unfolding content_of
content s = content_of s.step s

-- The wizard, the images that were uploaded, with their token ids, and the calls of `props.onDone`.
pub record World : Type 0 where
  pub state : State
  pub images : List (Text × Text)
  pub handed_on : List NamedToken

pub data Step (sha256 : Metadata → Text) : World → World → Type 0 where
  named :
      (w : World) (t : Text) (field : Option Text) (card : TokenIdState) (id : Text)
      → content w.state ≡ token_id_card t
      → (submit_token_id field card).1 ≡ some id
      → Step sha256 w (record w { state = token_id_updated id w.state })
  pictured :
      (w : World) (t : Text) (card : ImageState) (r : Settled Text) (id url : Text)
      → content w.state ≡ image_card t
      → (on_image t card r).1 ≡ some (id, url)
      → Step sha256 w
          (record w { state = image_uploaded id url w.state; images = (id, url) ∷ w.images })
  described :
      (w : World) (t image : Text) (form : MetadataForm) (card : MetadataState) (r : Settled Text)
      (id : Text) (url : MetadataUrl)
      → content w.state ≡ metadata_card t image
      → (on_metadata sha256 t image form card r).1 ≡ some (id, url)
      → Step sha256 w (record w { state = metadata_uploaded id url w.state })
  counted :
      (w : World) (t : Text) (field : Option Text) (card : QuantityState) (id quantity : Text)
      → content w.state ≡ quantity_card t
      → (submit_quantity t field card).1 ≡ some (id, quantity)
      → Step sha256 w (record w {
        state = (quantity_updated id quantity w.state).0;
        handed_on = (quantity_updated id quantity w.state).1 ∷ w.handed_on;
      })

unfoldable pub start : Text → World
start id = record { state = initial_state id; images = []; handed_on = [] }

-- The worlds reached from a file's card that proposes the token id.
pub data Reach (sha256 : Metadata → Text) (proposed : Text) : World → Type 0 where
  here : Reach sha256 proposed (start proposed)
  next : {w v : World} → Reach sha256 proposed w → Step sha256 w v → Reach sha256 proposed v
