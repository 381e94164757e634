-- ===== src/Mint/PrepareOrAdd.antt =====
-- components/cis2/Cis2BatchMetadataPrepareOrAdd.tsx: joins the tokens of the uploaded files with the
-- tokens added by metadata url, and hands them on when both sides are done.
pub mod Joining
mod Tests
use concordium_dapp_examples.Common.{
  ◌≡◌, Bool, true, false, not, ◌&&◌, List, [], Text, Option, none, some, is_empty, if◌then◌else◌,
  length, ℕ,
}
use concordium_dapp_examples.Common.Dict.{Dict, merge}
use concordium_dapp_examples.Mint.Types.{File, TokenInfo}

pub record State : Type 0 where
  pub is_prep_done : Bool
  pub is_add_done : Bool
  pub tokens : Dict TokenInfo

unfoldable pub initial_state : List File → State
initial_state files = record { is_prep_done = is_empty files; is_add_done = false; tokens = [] }

-- `onPrepDone` and `onAddDone`: the new state, and the tokens with which `onDone` is called.
unfoldable pub on_prep_done : Dict TokenInfo → State → State × Option (Dict TokenInfo)
on_prep_done tokens s =
    let combined = merge s.tokens tokens in
    (
      record s { is_prep_done = true; tokens = combined },
      if s.is_add_done then some combined else none,
    )

unfoldable pub on_add_done : Dict TokenInfo → State → State × Option (Dict TokenInfo)
on_add_done tokens s =
    let combined = merge s.tokens tokens in
    (
      record s { is_add_done = true; tokens = combined },
      if s.is_prep_done then some combined else none,
    )

-- The files' side is rendered.
unfoldable pub renders_prepare : List File → Text → Bool
renders_prepare files pinata_jwt = not (is_empty files) && not (is_empty pinata_jwt)

-- `startingTokenId` of the other side.
unfoldable pub starting_token_id : List File → ℕ
starting_token_id files = length files

pub data Reach (files : List File) (pinata_jwt : Text) : State → Type 0 where
  here : Reach files pinata_jwt (initial_state files)
  prep :
      {s : State} (tokens : Dict TokenInfo)
      → Reach files pinata_jwt s
      → renders_prepare files pinata_jwt ≡ true
      → Reach files pinata_jwt (on_prep_done tokens s).0
  add :
      {s : State} (tokens : Dict TokenInfo)
      → Reach files pinata_jwt s
      → Reach files pinata_jwt (on_add_done tokens s).0
