-- ===== src/Mint/Prepare.antt =====
-- components/cis2/Cis2BatchMetadataPrepare.tsx: collects the metadata of every uploaded file.
pub mod Entries
pub mod Completion
mod Tests
use mathlib.Core.List.{Memᴰ}
use concordium_dapp_examples.Common.{
  ℕ, Bool, true, false, not, ◌&&◌, List, [], ◌∷◌, Text, length, count_if, Option, none, some, ◌==◌,
  is_empty, is_some, if◌then◌else◌,
}
use concordium_dapp_examples.Common.Dict.{Dict, lookup, insert, values}
use concordium_dapp_examples.Mint.Types.{File, TokenInfo}

-- One entry of `filesMap`.
pub record FileEntry : Type 0 where
  pub file : Option File
  pub token_id : Option Text
  pub token_info : Option TokenInfo

pub record State : Type 0 where
  pub files : Dict FileEntry
  pub error : Text
  pub files_count : ℕ
  pub prepared_files_count : ℕ

abbrev pub fresh : File → FileEntry
fresh f = record { file = some f; token_id = none; token_info = none }

-- `props.files.forEach((file) => (filesMap[file.name] = { file }))`
unfoldable pub files_map : Dict FileEntry → List File → Dict FileEntry
files_map d [] = d
files_map d (f ∷ files) = files_map (insert f.name (fresh f) d) files

unfoldable pub initial_state : List File → State
unfolding files_map
initial_state files = record {
  files = files_map [] files;
  error = [];
  files_count = length files;
  prepared_files_count = 0;
}

-- `f.tokenId` is falsy when it is absent or empty.
abbrev pub truthy_text : Option Text → Bool
truthy_text none = false
truthy_text (some s) = not (is_empty s)

-- `f.tokenId && f.tokenInfo`
unfoldable pub is_prepared : FileEntry → Bool
is_prepared f = truthy_text f.token_id && is_some f.token_info

-- `{ ...state.files[filename], tokenId, tokenInfo }`
abbrev pub prepared_entry : Text → TokenInfo → Option FileEntry → FileEntry
prepared_entry id info none = record { file = none; token_id = some id; token_info = some info }
prepared_entry id info (some entry) = record entry { token_id = some id; token_info = some info }

unfoldable pub prepared_files : File → Text → TokenInfo → State → Dict FileEntry
prepared_files f id info s = insert f.name (prepared_entry id info (lookup f.name s.files)) s.files

-- The dictionary that is handed on: `ret[f.tokenId!] = f.tokenInfo!` for every entry. An entry that
-- is not prepared is skipped here; the program would write the key `undefined`, but reaches the loop
-- only when every entry is prepared (`Completion`).
abbrev pub add_token : Option Text → Option TokenInfo → Dict TokenInfo → Dict TokenInfo
add_token none info ret = ret
add_token (some id) none ret = ret
add_token (some id) (some info) ret = insert id info ret

unfoldable pub token_map : Dict TokenInfo → List FileEntry → Dict TokenInfo
token_map ret [] = ret
token_map ret (f ∷ entries) = token_map (add_token f.token_id f.token_info ret) entries

-- `onMetadataPrepared` of the card for a file: the new state, and the tokens with which `onDone` is
-- called.
unfoldable pub on_metadata_prepared :
    List File → File → Text → TokenInfo → State → State × Option (Dict TokenInfo)
unfolding prepared_files is_prepared token_map
on_metadata_prepared all_files f id info s =
    let files = prepared_files f id info s in
    let count = count_if is_prepared (values files) in
    (
      record s { files = files; prepared_files_count = count },
      if count == length all_files then some (token_map [] (values files)) else none,
    )

-- The states that the cards' callbacks lead to, in any order and as often as they are called.
pub data Reach (files : List File) : State → Type 0 where
  here : Reach files (initial_state files)
  next :
      {s : State} (f : File) (id : Text) (info : TokenInfo)
      → Reach files s
      → Memᴰ f files
      → Reach files (on_metadata_prepared files f id info s).0
