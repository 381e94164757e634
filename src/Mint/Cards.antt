-- ===== src/Mint/Cards.antt =====
-- The cards of one token, components/cis2/GetTokenIdCardStep.tsx, GetQuantityCardStep.tsx and the
-- upload cards of Cis2BatchItemMetadataPrepare.tsx. A handler returns the card's new state and the
-- call of `onDone`, if it makes one.
pub mod Quantities
mod Tests
use concordium_dapp_examples.Common.{
  Bool, true, false, not, ◌||◌, [], ◌∷◌, Text, codes, Option, none, some, is_empty, if◌then◌else◌,
  Settled, fulfilled, rejected,
}
use concordium_dapp_examples.Common.Int.{ℤ, pos, negsuc, is_zero}
use concordium_dapp_examples.Js.{parse_int}
use concordium_dapp_examples.TokenId.{
  token_id_to_nft_image_file_name, token_id_to_nft_metadata_file_name,
}
use concordium_dapp_examples.Mint.Types.{File, MetadataUrl}

-- `formData.get(name)?.toString() ?? ''`
abbrev pub field_text : Option Text → Text
field_text none = []
field_text (some s) = s

-- `!!formData.get(name)?.toString()`
abbrev pub is_checked : Option Text → Bool
is_checked none = false
is_checked (some s) = not (is_empty s)

pub record TokenIdState : Type 0 where
  pub token_id : Text
  pub error : Text

unfoldable pub submit_token_id : Option Text → TokenIdState → TokenIdState × Option Text
submit_token_id field s =
    let id = field_text field in
    if is_empty id
    then (record s { error = codes "Invalid Token Id" }, none)
    else (record { token_id = id; error = [] }, some id)

pub record QuantityState : Type 0 where
  pub quantity_error : Text
  pub quantity : Text

-- `!n` for a number; `none` is NaN.
abbrev pub is_falsy : Option ℤ → Bool
is_falsy none = true
is_falsy (some n) = is_zero n

-- The call of `onDone` passes the card's own token id.
unfoldable pub submit_quantity :
    (token_id : Text) → Option Text → QuantityState → QuantityState × Option (Text × Text)
submit_quantity token_id field s =
    let quantity = field_text field in
    if is_empty quantity || is_falsy (parse_int quantity)
    then (record s { quantity_error = codes "Invalid Quantity" }, none)
    else (record { quantity = quantity; quantity_error = [] }, some (token_id, quantity))

-- `UploadImageIpfsCardStep`
pub record ImageState : Type 0 where
  pub image_error : Text
  pub is_uploading_image : Bool
  pub image_ipfs_url : Text

-- `submit`: the new state, and the name under which the file is uploaded.
unfoldable pub submit_image : File → (token_id : Text) → ImageState → ImageState × Text
submit_image file token_id s =
    (record s { is_uploading_image = true }, token_id_to_nft_image_file_name file.name token_id)

-- The callbacks; `captured` is `state` at the click.
unfoldable pub on_image :
    (token_id : Text) → (captured : ImageState) → Settled Text → ImageState × Option (Text × Text)
on_image token_id captured (fulfilled url) = (
  record captured { image_ipfs_url = url; is_uploading_image = false; image_error = [] },
  some (token_id, url),
)
on_image token_id captured (rejected message) =
    (record captured { image_error = message; is_uploading_image = false }, none)

-- `Metadata`, as this card makes it.
pub record Metadata : Type 0 where
  pub name : Text
  pub description : Text
  pub display_url : Text
  pub is_unique : Bool

pub record MetadataForm : Type 0 where
  pub name_field : Option Text
  pub description_field : Option Text
  pub unique_field : Option Text
  pub include_hash_field : Option Text

-- `UploadMetadataIpfsCardStep`
pub record MetadataState : Type 0 where
  pub is_uploading_metadata : Bool
  pub metadata_url : MetadataUrl
  pub metadata_error : Text

unfoldable pub form_metadata : (image_ipfs_url : Text) → MetadataForm → Metadata
form_metadata image_ipfs_url form = record {
  name = field_text form.name_field;
  description = field_text form.description_field;
  display_url = image_ipfs_url;
  is_unique = is_checked form.unique_field;
}

-- `uploadMetadataClicked`: the new state, and the name and the contents of the upload.
unfoldable pub submit_metadata :
    (token_id image_ipfs_url : Text)
    → MetadataForm
    → MetadataState
    → MetadataState × Text × Metadata
unfolding form_metadata
submit_metadata token_id image_ipfs_url form s = (
  record s { is_uploading_metadata = true },
  token_id_to_nft_metadata_file_name token_id,
  form_metadata image_ipfs_url form,
)

-- The callbacks. `sha256` is the SDK's hash of the JSON text of the metadata, in hexadecimal.
unfoldable pub on_metadata :
    (sha256 : Metadata → Text)
    → (token_id image_ipfs_url : Text) → MetadataForm
    → (captured : MetadataState) → Settled Text
    → MetadataState × Option (Text × MetadataUrl)
unfolding form_metadata
on_metadata sha256 token_id image_ipfs_url form captured (fulfilled ipfs_url) =
    let url : MetadataUrl = record {
      url = ipfs_url;
      hash =
          if is_checked form.include_hash_field
          then sha256 (form_metadata image_ipfs_url form)
          else [];
    } in
    (
      record captured { metadata_url = url; is_uploading_metadata = false; metadata_error = [] },
      some (token_id, url),
    )
on_metadata sha256 token_id image_ipfs_url form captured (rejected message) =
    (record captured { metadata_error = message; is_uploading_metadata = false }, none)
