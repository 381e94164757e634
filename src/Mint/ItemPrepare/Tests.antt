-- ===== src/Mint/ItemPrepare/Tests.antt =====
-- One file, led through all its cards. The hash is a parameter, here a constant.
use concordium_dapp_examples.Common.{
  ◌≡◌, refl, ◌⊎◌, [], ◌∷◌, Text, codes, none, some, fulfilled, true,
}
use concordium_dapp_examples.Js.{parse_int}
use concordium_dapp_examples.Mint.Types.{MetadataUrl, NamedToken}
use concordium_dapp_examples.Mint.Cards.{
  Metadata, MetadataForm, TokenIdState, ImageState, MetadataState, QuantityState, submit_token_id,
  on_image, on_metadata, submit_quantity,
}
use concordium_dapp_examples.Mint.ItemPrepare.{
  initial_state, token_id_updated, image_uploaded, metadata_uploaded, quantity_updated, content,
  World, start, Reach, here, next, named, pictured, described, counted,
}
use concordium_dapp_examples.Mint.ItemPrepare.HandedOn.{IsReady, Reach-IsReady}

abbrev constant_hash : Metadata → Text
constant_hash m = codes "c0ffee"

abbrev form : MetadataForm
form = record {
  name_field = some (codes "Cat");
  description_field = some (codes "A cat");
  unique_field = none;
  include_hash_field = some (codes "on");
}

abbrev cat_metadata : MetadataUrl
cat_metadata = record { url = codes "ipfs://metadata"; hash = codes "c0ffee" }

abbrev cat : NamedToken
cat = record {
  token_id = codes "07";
  token_info = record { metadata_url = cat_metadata; quantity = codes "3" };
}

abbrev minted_world : World
minted_world = record {
  state =
      (quantity_updated (codes "07") (codes "3") (
        metadata_uploaded (codes "07") cat_metadata (
          image_uploaded (codes "07") (codes "ipfs://image")
            (token_id_updated (codes "07") (initial_state (codes "01")))))).0;
  images = (codes "07", codes "ipfs://image") ∷ [];
  handed_on = cat ∷ [];
}

minted_world-Reach : Reach constant_hash (codes "01") minted_world
unfolding start initial_state content token_id_updated image_uploaded metadata_uploaded
    quantity_updated submit_token_id on_image on_metadata submit_quantity parse_int
minted_world-Reach =
    let empty_card : TokenIdState = record { token_id = codes "01"; error = [] } in
    let image_card : ImageState = record {
      image_error = [];
      is_uploading_image = true;
      image_ipfs_url = [];
    } in
    let metadata_card : MetadataState = record {
      is_uploading_metadata = true;
      metadata_url = record { url = []; hash = [] };
      metadata_error = [];
    } in
    let quantity_card : QuantityState = record { quantity_error = []; quantity = [] } in
    let first =
      next here (named _ (codes "01") (some (codes "07")) empty_card (codes "07") refl refl) in
    let second = next first (
      pictured _ (codes "07") image_card (fulfilled (codes "ipfs://image")) (codes "07")
        (codes "ipfs://image") refl refl) in
    let third = next second (
      described _ (codes "07") (codes "ipfs://image") form metadata_card
        (fulfilled (codes "ipfs://metadata")) (codes "07") cat_metadata refl refl) in
    next third
      (counted _ (codes "07") (some (codes "3")) quantity_card (codes "07") (codes "3") refl refl)

Reach-IsReady_example :
    (minted_world.handed_on ≡ [])
    ⊎ ((t : NamedToken) × (minted_world.handed_on ≡ t ∷ [])
        × IsReady constant_hash minted_world.images t)
Reach-IsReady_example = Reach-IsReady constant_hash minted_world-Reach
