-- ===== src/TokenId.antt =====
-- The token id of the n-th item of a batch, low-code-nft-marketplace/common-ui/src/models/
-- Cis2Client.ts (`toTokenId`), and the file names that carry it, models/Utils.ts.
pub mod FileNames
pub mod RoundTrip
mod Tests
use concordium_dapp_examples.Common.{
  ℕ, zero, suc, ◌+◌, ◌*◌, ◌-◌, ◌++◌, List, [], ◌∷◌, Option, none, some, Text, codes, ◌==◌, length,
}
use mathlib.Core.Bool.{Bool}
use concordium_dapp_examples.Js.{to_string}

-- `Cis2ContractInfo`, as far as token ids read it.
pub record Cis2ContractInfo : Type 0 where
  pub contract_name : Text
  pub token_id_byte_size : ℕ

abbrev pub replicate {ℓ} : {A : Type ℓ} → ℕ → A → List A
replicate zero a = []
replicate (suc n) a = a ∷ replicate n a

-- `s.padStart(width, c)` for one code unit `c`
unfoldable pub pad_start : ℕ → ℕ → Text → Text
pad_start width c s = replicate (width - length s) c ++ s

unfoldable pub to_token_id : ℕ → Cis2ContractInfo → Text
unfolding pad_start to_string
to_token_id integer info = pad_start (info.token_id_byte_size * 2) b'0' (to_string 16 integer)

-- `s.substring(s.lastIndexOf('.'))`: from the last dot on. Without a dot the index is -1, which
-- `substring` takes for 0, so the whole text is kept.
from_last_dot : Text → Option Text
from_last_dot [] = none
from_last_dot (c ∷ s) = elim (from_last_dot s) [
  | some ext ↦ some ext
  | none ↦ elim (c == b'.') [ Bool.true ↦ some (c ∷ s) | Bool.false ↦ none ]
]

unfoldable pub extension : Text → Text
unfolding from_last_dot
extension name = elim (from_last_dot name) [ some ext ↦ ext | none ↦ name ]

unfoldable pub token_id_to_nft_image_file_name : Text → Text → Text
unfolding extension
token_id_to_nft_image_file_name original token_id =
    codes "nft_" ++ (token_id ++ (codes "." ++ extension original))

unfoldable pub token_id_to_nft_metadata_file_name : Text → Text
token_id_to_nft_metadata_file_name token_id = codes "nft_" ++ (token_id ++ codes "_metadata.json")
