-- ===== src/Mint/ItemPrepare/Cards.antt =====
-- What each card hands on when it calls `onDone`.
use concordium_dapp_examples.Common.{
  ◌≡◌, ◌≢◌, false, Text, Option, some, Settled, fulfilled, rejected, is_empty, if◌then◌else◌, [],
  Bool-cases, inl, inr, ◌||◌,
}
use mathlib.Core.Path.{subst}
use concordium_dapp_examples.Common.Int.{ℤ, pos}
use concordium_dapp_examples.Js.{parse_int}
use concordium_dapp_examples.Mint.Types.{MetadataUrl}
use concordium_dapp_examples.Mint.Cards.{
  field_text, is_checked, is_falsy, TokenIdState, submit_token_id, QuantityState, submit_quantity,
  ImageState, on_image, Metadata, MetadataForm, form_metadata, MetadataState, on_metadata,
}
use concordium_dapp_examples.Mint.Cards.Quantities.{submit_quantity_iff}

-- The quantity is a text from which a number other than 0 can be read.
abbrev pub IsQuantity : Text → Type 0
IsQuantity t = (n : ℤ) × (parse_int t ≡ some n) × (n ≢ pos 0)

-- The metadata url has no hash, or that of metadata whose display is the image.
abbrev pub IsDescribed : (Metadata → Text) → Text → MetadataUrl → Type 0
IsDescribed sha256 image url =
    (form : MetadataForm) × (url.hash
      ≡ (if is_checked form.include_hash_field then sha256 (form_metadata image form) else []))

pub submit_token_id-some :
    (field : Option Text) (card : TokenIdState) (id : Text)
    → (submit_token_id field card).1 ≡ some id
    → is_empty id ≡ false
unfolding submit_token_id
submit_token_id-some field card id h = elim (Bool-cases (is_empty (field_text field))) [
  | inl e ↦ absurd (cc (rw e at h))
  | inr e ↦ let same : field_text field ≡ id = cc (rw e at h) in rw (← same) e
]

pub on_image-some :
    (t : Text) (card : ImageState) (r : Settled Text) (id url : Text)
    → (on_image t card r).1 ≡ some (id, url)
    → id ≡ t
unfolding on_image
on_image-some t card (fulfilled u) id url h = cc
on_image-some t card (rejected e) id url h = absurd (cc)

pub on_metadata-some :
    (sha256 : Metadata → Text) (t image : Text) (form : MetadataForm) (card : MetadataState)
    (r : Settled Text) (id : Text) (url : MetadataUrl)
    → (on_metadata sha256 t image form card r).1 ≡ some (id, url)
    → (id ≡ t) × IsDescribed sha256 image url
unfolding on_metadata
on_metadata-some sha256 t image form card (fulfilled u) id url h = (cc, (form, cc))
on_metadata-some sha256 t image form card (rejected e) id url h = absurd (cc)

pub submit_quantity-some :
    (t : Text) (field : Option Text) (card : QuantityState) (id quantity : Text)
    → (submit_quantity t field card).1 ≡ some (id, quantity)
    → (id ≡ t) × IsQuantity quantity
unfolding submit_quantity
submit_quantity-some t field card id quantity h =
    elim (Bool-cases (is_empty (field_text field) || is_falsy (parse_int (field_text field)))) [
      | inl e ↦ absurd (cc (rw e at h))
      | inr e ↦
          let same : field_text field ≡ quantity = cc (rw e at h) in
          (cc (rw e at h), subst IsQuantity same ((submit_quantity_iff t field card).0 (rw e)))
    ]
