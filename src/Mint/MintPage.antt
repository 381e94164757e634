-- ===== src/Mint/MintPage.antt =====
-- pages/MintPage.tsx: the wizard from a collection to the minted tokens. `nft_contract` and
-- `token_metadata_map` are optional in the state, and the last step reads both with `!`.
pub mod Wizard
mod Tests
use concordium_dapp_examples.Common.{◌≡◌, List, [], ◌∷◌, Text, codes, Option, none, some}
use concordium_dapp_examples.Common.Dict.{Dict}
use concordium_dapp_examples.Client.{ContractAddress}
use concordium_dapp_examples.Mint.Types.{File, TokenInfo}

pub data Steps : Type 0 where
  get_or_init_cis2 connect_pinata upload_files prepare_metadata mint : Steps

-- The title that is shown above the step's content.
unfoldable pub title : Steps → Text
title get_or_init_cis2 = codes "Create New or Find Existing NFT Collection"
title connect_pinata = codes "Connect Pinata"
title upload_files = codes "Upload Image Files"
title prepare_metadata = codes "Prepare Metadata"
title mint = codes "Mint"

pub record State : Type 0 where
  pub active_step : Steps
  pub nft_contract : Option ContractAddress
  pub token_metadata_map : Option (Dict TokenInfo)
  pub pinata_jwt : Text
  pub files : List File

unfoldable pub initial_state : State
initial_state = record {
  active_step = get_or_init_cis2;
  nft_contract = none;
  token_metadata_map = none;
  pinata_jwt = [];
  files = [];
}

unfoldable pub on_get_collection_address : ContractAddress → State → State
on_get_collection_address address s = record s {
  active_step = connect_pinata;
  nft_contract = some address;
}

unfoldable pub on_pinata_connected : Text → State → State
on_pinata_connected jwt s = record s { pinata_jwt = jwt; active_step = upload_files }

unfoldable pub on_pinata_skipped : State → State
on_pinata_skipped s = record s { pinata_jwt = []; active_step = prepare_metadata }

unfoldable pub on_files_uploaded : List File → State → State
on_files_uploaded files s = record s { files = files; active_step = prepare_metadata }

unfoldable pub on_metadata_prepared : Dict TokenInfo → State → State
on_metadata_prepared tokens s = record s { active_step = mint; token_metadata_map = some tokens }

-- `steps[Math.max(index - 1, 0)]`
unfoldable pub previous : Steps → Steps
previous get_or_init_cis2 = get_or_init_cis2
previous connect_pinata = get_or_init_cis2
previous upload_files = connect_pinata
previous prepare_metadata = upload_files
previous mint = prepare_metadata

unfoldable pub go_back : State → State
unfolding previous
go_back s = record s { active_step = previous s.active_step }

-- What `StepContent` renders, with the properties that it hands on. `nftContract!` and
-- `tokenMetadataMap!` are the options themselves: `none` is the `undefined` that they may let through.
pub data Content : Type 0 where
  find_instance_or_init : (address : Option ContractAddress) → Content
  connect : (jwt : Text) → Content
  upload : (files : List File) → Content
  prepare_or_add : (jwt : Text) (files : List File) → Content
  batch_mint : (address : Option ContractAddress) (tokens : Option (Dict TokenInfo)) → Content

step_content_of : Steps → State → Content
step_content_of get_or_init_cis2 s = find_instance_or_init s.nft_contract
step_content_of connect_pinata s = connect s.pinata_jwt
step_content_of upload_files s = upload s.files
step_content_of prepare_metadata s = prepare_or_add s.pinata_jwt s.files
step_content_of mint s = batch_mint s.nft_contract s.token_metadata_map

unfoldable pub step_content : State → Content
unfolding step_content_of
step_content s = step_content_of s.active_step s

-- The callbacks that the rendered step can call, and the back button, which is always there.
pub data Step : State → State → Type 0 where
  collection :
      (s : State) (a : ContractAddress)
      → s.active_step ≡ get_or_init_cis2
      → Step s (on_get_collection_address a s)
  connected :
      (s : State) (jwt : Text) → s.active_step ≡ connect_pinata → Step s (on_pinata_connected jwt s)
  skipped : (s : State) → s.active_step ≡ connect_pinata → Step s (on_pinata_skipped s)
  uploaded :
      (s : State) (files : List File)
      → s.active_step ≡ upload_files
      → Step s (on_files_uploaded files s)
  prepared :
      (s : State) (tokens : Dict TokenInfo)
      → s.active_step ≡ prepare_metadata
      → Step s (on_metadata_prepared tokens s)
  back : (s : State) → Step s (go_back s)

pub data Reach : State → Type 0 where
  here : Reach initial_state
  next : {s t : State} → Reach s → Step s t → Reach t
