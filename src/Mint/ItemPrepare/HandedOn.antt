-- ===== src/Mint/ItemPrepare/HandedOn.antt =====
-- What is known of a token when its wizard hands it on.
use mathlib.Core.List.{Memᴰ}
use mathlib.Core.Path.{subst}
use concordium_dapp_examples.Common.{
  ◌≡◌, refl, sym, ap, ◌∙◌, ◌⊎◌, inl, inr, false, List, [], ◌∷◌, Text, is_empty,
}
use concordium_dapp_examples.Mint.Types.{NamedToken}
use concordium_dapp_examples.Mint.Cards.{Metadata}
use concordium_dapp_examples.Mint.ItemPrepare.{
  Steps, get_token_id, upload_image, create_metadata, get_quantity, mint, State, initial_state,
  token_id_updated, image_uploaded, metadata_uploaded, quantity_updated, token_id_card, image_card,
  metadata_card, quantity_card, content_of, content, World, Step, named, pictured, described,
  counted, start, Reach, here, next,
}
use concordium_dapp_examples.Mint.ItemPrepare.Cards.{
  IsQuantity, IsDescribed, submit_token_id-some, on_image-some, on_metadata-some,
  submit_quantity-some,
}

-- The token has an id, and an image that was uploaded under it.
record IsPictured (id image : Text) (images : List (Text × Text)) : Type 0 where
  has_name : is_empty id ≡ false
  was_uploaded : Memᴰ (id, image) images

-- A token that is ready to be minted.
pub record IsReady (sha256 : Metadata → Text) (images : List (Text × Text)) (t : NamedToken)
    : Type 0 where
  pub image : Text
  pub is_named : is_empty t.token_id ≡ false
  pub is_pictured : Memᴰ (t.token_id, image) images
  pub is_described : IsDescribed sha256 image t.token_info.metadata_url
  pub is_counted : IsQuantity t.token_info.quantity

at_token_id :
    (step : Steps) (s : State) (t : Text)
    → content_of step s ≡ token_id_card t
    → step ≡ get_token_id
unfolding content_of
at_token_id get_token_id s t h = refl
at_token_id upload_image s t h = absurd (cc)
at_token_id create_metadata s t h = absurd (cc)
at_token_id get_quantity s t h = absurd (cc)
at_token_id mint s t h = absurd (cc)

at_image :
    (step : Steps) (s : State) (t : Text)
    → content_of step s ≡ image_card t
    → (step ≡ upload_image) × (s.token_id ≡ t)
unfolding content_of
at_image get_token_id s t h = absurd (cc)
at_image upload_image s t h = (refl, cc)
at_image create_metadata s t h = absurd (cc)
at_image get_quantity s t h = absurd (cc)
at_image mint s t h = absurd (cc)

at_metadata :
    (step : Steps) (s : State) (t image : Text)
    → content_of step s ≡ metadata_card t image
    → (step ≡ create_metadata) × (s.token_id ≡ t) × (s.image_ipfs_url ≡ image)
unfolding content_of
at_metadata get_token_id s t image h = absurd (cc)
at_metadata upload_image s t image h = absurd (cc)
at_metadata create_metadata s t image h = (refl, cc, cc)
at_metadata get_quantity s t image h = absurd (cc)
at_metadata mint s t image h = absurd (cc)

at_quantity :
    (step : Steps) (s : State) (t : Text)
    → content_of step s ≡ quantity_card t
    → (step ≡ get_quantity) × (s.token_id ≡ t)
unfolding content_of
at_quantity get_token_id s t h = absurd (cc)
at_quantity upload_image s t h = absurd (cc)
at_quantity create_metadata s t h = absurd (cc)
at_quantity get_quantity s t h = (refl, cc)
at_quantity mint s t h = absurd (cc)

module _ (sha256 : Metadata → Text) where
  -- What each step holds.
  abbrev Holds : Steps → State → List (Text × Text) → List NamedToken → Type 0
  Holds get_token_id s images handed = handed ≡ []
  Holds upload_image s images handed = (handed ≡ []) × (is_empty s.token_id ≡ false)
  Holds create_metadata s images handed =
      (handed ≡ []) × IsPictured s.token_id s.image_ipfs_url images
  Holds get_quantity s images handed =
      (handed ≡ [])
      × IsPictured s.token_id s.image_ipfs_url images
      × IsDescribed sha256 s.image_ipfs_url s.metadata_url
  Holds mint s images handed = (t : NamedToken) × (handed ≡ t ∷ []) × IsReady sha256 images t

  abbrev IsOrderly : World → Type 0
  IsOrderly w = Holds w.state.step w.state w.images w.handed_on

  at_step :
      (w : World) (step : Steps)
      → w.state.step ≡ step
      → IsOrderly w
      → Holds step w.state w.images w.handed_on
  at_step w step e h = subst (λ x. Holds x w.state w.images w.handed_on) e h

  Step-IsOrderly : {w v : World} → Step sha256 w v → IsOrderly w → IsOrderly v
  unfolding content token_id_updated image_uploaded metadata_uploaded quantity_updated
  Step-IsOrderly (named w t field card id e d) h = (
    at_step w get_token_id (at_token_id w.state.step w.state t e) h,
    submit_token_id-some field card id d,
  )
  Step-IsOrderly (pictured w t card r id url e d) h =
      let (at, same) = at_image w.state.step w.state t e in
      let (none_yet, has_name) = at_step w upload_image at h in
      let id_same : w.state.token_id ≡ id = same ∙ sym (on_image-some t card r id url d) in
      (
        none_yet,
        record {
          has_name = subst (λ x. is_empty x ≡ false) id_same has_name;
          was_uploaded = Memᴰ.head refl;
        },
      )
  Step-IsOrderly (described w t image form card r id url e d) h =
      let (at, same, same_image) = at_metadata w.state.step w.state t image e in
      let (none_yet, p) = at_step w create_metadata at h in
      let (id_same, desc) = on_metadata-some sha256 t image form card r id url d in
      (
        none_yet,
        subst (λ x. IsPictured x w.state.image_ipfs_url w.images) (same ∙ sym id_same) p,
        subst (λ x. IsDescribed sha256 x url) (sym same_image) desc,
      )
  Step-IsOrderly (counted w t field card id quantity e d) h =
      let (at, same) = at_quantity w.state.step w.state t e in
      let (none_yet, p, desc) = at_step w get_quantity at h in
      let (id_same, q) = submit_quantity-some t field card id quantity d in
      let p' = subst (λ x. IsPictured x w.state.image_ipfs_url w.images) (same ∙ sym id_same) p in
      (
        (quantity_updated id quantity w.state).1,
        ap (λ l. (quantity_updated id quantity w.state).1 ∷ l) none_yet,
        record {
          image = w.state.image_ipfs_url;
          is_named = p'.has_name;
          is_pictured = p'.was_uploaded;
          is_described = desc;
          is_counted = q;
        },
      )

  Reach-IsOrderly : {proposed : Text} {w : World} → Reach sha256 proposed w → IsOrderly w
  unfolding start initial_state
  Reach-IsOrderly here = refl
  Reach-IsOrderly (next r s) = Step-IsOrderly s (Reach-IsOrderly r)

  handed_once :
      (step : Steps) (w : World)
      → Holds step w.state w.images w.handed_on
      → (w.handed_on ≡ []) ⊎ ((t : NamedToken) × (w.handed_on ≡ t ∷ []) × IsReady sha256 w.images t)
  handed_once get_token_id w h = inl h
  handed_once upload_image w h = inl h.0
  handed_once create_metadata w h = inl h.0
  handed_once get_quantity w h = inl h.0
  handed_once mint w h = inr h

  -- In every world that the wizard of an uploaded file can reach, it has handed on nothing, or
  -- exactly one token that has an id, an image uploaded under that id, metadata whose hash is
  -- absent or that of metadata with that image, and a quantity from which parseInt reads a number
  -- other than 0.
  pub Reach-IsReady :
      {proposed : Text} {w : World}
      → Reach sha256 proposed w
      → (w.handed_on ≡ []) ⊎ ((t : NamedToken) × (w.handed_on ≡ t ∷ []) × IsReady sha256 w.images t)
  Reach-IsReady {proposed} {w} r = handed_once w.state.step w (Reach-IsOrderly r)
