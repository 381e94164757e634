-- ===== src/Mint/ItemAdd/Tests.antt =====
-- One token, led through all its cards. Metadata are texts, and the hash is a constant.
use mathlib.Core.List.{Memᴰ}
use concordium_dapp_examples.Common.{
  refl, true, [], ◌∷◌, Text, codes, none, some, Settled, fulfilled,
}
use concordium_dapp_examples.Js.{parse_int}
use concordium_dapp_examples.Mint.Types.{MetadataUrl}
use concordium_dapp_examples.Mint.Cards.{
  TokenIdState, submit_token_id, QuantityState, submit_quantity,
}
use concordium_dapp_examples.Mint.LazyMetadata
use concordium_dapp_examples.Mint.LazyMetadata.{on_fetched}
use concordium_dapp_examples.Mint.ItemAdd.{
  UrlState, fetches, on_metadata_loaded, State, Added, initial_state, metadata_url_updated,
  token_id_updated, quantity_updated, content, World, fetching, arrived, named, counted, start,
  Reach, here, next,
}
use concordium_dapp_examples.Mint.ItemAdd.Loaded.{IsReady, handed_on-IsReady}

abbrev constant_hash : Text → Text
constant_hash t = codes "c0ffee"

abbrev parse_any : Text → Settled Text
parse_any t = fulfilled t

abbrev dog_url : MetadataUrl
dog_url = record { url = codes "https://dog"; hash = codes "c0ffee" }

abbrev dog_card : UrlState Text
dog_card = record {
  error = some [];
  metadata_url = some (record { url = codes "https://dog"; hash = [] });
  metadata = none;
  include_hash = some true;
}

abbrev dog : Added
dog = record { token_id = codes "02"; metadata_url = some dog_url; quantity = codes "1" }

abbrev first_state : State Text
first_state = initial_state (codes "02")

abbrev last_world : World Text
last_world = record {
  state =
      (quantity_updated (codes "02") (codes "1")
        (token_id_updated (codes "02") (metadata_url_updated first_state dog_url (codes "{}")))).0;
  fetches_started = record { wizard = first_state; card = dog_card } ∷ [];
  loaded = (codes "https://dog", codes "{}") ∷ [];
  handed_on = dog ∷ [];
}

last_world-Reach : Reach constant_hash parse_any (codes "02") last_world
unfolding start initial_state content metadata_url_updated token_id_updated quantity_updated fetches
    on_metadata_loaded submit_token_id submit_quantity parse_int on_fetched
    LazyMetadata.initial_state
last_world-Reach =
    let id_card : TokenIdState = record { token_id = codes "02"; error = [] } in
    let quantity_card : QuantityState = record { quantity_error = []; quantity = [] } in
    let first = next here (fetching _ dog_card refl refl) in
    let second = next first (
      arrived _ (record { wizard = first_state; card = dog_card }) LazyMetadata.initial_state
        (fulfilled (codes "{}")) (codes "{}") (codes "{}") (Memᴰ.head refl) refl) in
    let third =
      next second (named _ (codes "02") (some (codes "02")) id_card (codes "02") refl refl) in
    next third
      (counted _ (codes "02") (some (codes "1")) quantity_card (codes "02") (codes "1") refl refl)

handed_on-IsReady_example : IsReady constant_hash last_world.loaded dog
handed_on-IsReady_example =
    handed_on-IsReady constant_hash parse_any (codes "02") dog last_world-Reach (Memᴰ.head refl)
