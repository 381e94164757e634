-- ===== src/TokenId/FileNames.antt =====
-- The names under which the image of a token is uploaded.
use concordium_dapp_examples.Common.{
  ◌≡◌, ◌≢◌, refl, ◌++◌, [], ◌∷◌, none, some, Text, codes, arith, All,
}
use concordium_dapp_examples.TokenId.{from_last_dot, extension, token_id_to_nft_image_file_name}

abbrev pub NoDot : Text → Type 0
NoDot = All (λ c. c ≢ b'.')

from_last_dot_of_NoDot : (s : Text) → NoDot s → from_last_dot s ≡ none
unfolding from_last_dot
from_last_dot_of_NoDot [] h = refl
from_last_dot_of_NoDot (c ∷ s) (hc, hs) = ground (arith, from_last_dot_of_NoDot s hs)

from_last_dot-append :
    (stem ext : Text) → NoDot ext → from_last_dot (stem ++ (b'.' ∷ ext)) ≡ some (b'.' ∷ ext)
unfolding from_last_dot
from_last_dot-append [] ext h = ground (arith, from_last_dot_of_NoDot ext h)
from_last_dot-append (c ∷ stem) ext h = ground (arith, from_last_dot-append stem ext h)

-- For an image file name that ends in a dot and an extension without a dot, the uploaded name has
-- two dots in front of the extension.
pub image_file_name_two_dots :
    (stem ext token_id : Text)
    → NoDot ext
    → token_id_to_nft_image_file_name (stem ++ (b'.' ∷ ext)) token_id
      ≡ codes "nft_" ++ (token_id ++ (b'.' ∷ b'.' ∷ ext))
unfolding token_id_to_nft_image_file_name
image_file_name_two_dots stem ext token_id h = rw (from_last_dot-append stem ext h, extension)
