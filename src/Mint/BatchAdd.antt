-- ===== src/Mint/BatchAdd.antt =====
-- components/cis2/Cis2BatchMetadataAdd.tsx: tokens whose metadata is already published, added by
-- their metadata url.
pub mod DefaultIds
pub mod Done
mod Tests
use concordium_dapp_examples.Common.{
  ℕ, zero, suc, ◌+◌, Bool, true, false, not, ◌||◌, List, [], ◌∷◌, ◌++◌, Text, codes, Option, none,
  some, is_empty, is_some, length, set, if◌then◌else◌,
}
use concordium_dapp_examples.Common.Dict.{Dict, insert}
use concordium_dapp_examples.TokenId.{Cis2ContractInfo, to_token_id}
use concordium_dapp_examples.Mint.Types.{TokenInfo}

pub record Token : Type 0 where
  pub token_id : Text
  pub token_info : Option TokenInfo

pub record State : Type 0 where
  pub error : Text
  pub tokens : List Token

abbrev pub initial_state : State
initial_state = record { error = []; tokens = [] }

-- `tokens.splice(index, 1)`
unfoldable pub remove_at {ℓ} : {A : Type ℓ} → ℕ → List A → List A
remove_at i [] = []
remove_at zero (x ∷ xs) = xs
remove_at (suc i) (x ∷ xs) = x ∷ remove_at i xs

-- The card at `index` is rendered for a token of the list, so the write is in range.
unfoldable pub on_metadata_prepared : ℕ → Text → TokenInfo → State → State
on_metadata_prepared index id info s = record s {
  tokens = set s.tokens index (record { token_id = id; token_info = some info });
}

unfoldable pub on_add : ℕ → Cis2ContractInfo → State → State
on_add starting_token_id info s = record s {
  tokens =
      s.tokens
      ++ record {
        token_id = to_token_id (length s.tokens + 1 + starting_token_id) info;
        token_info = none;
      }
        ∷ [];
}

unfoldable pub on_remove : ℕ → State → State
unfolding remove_at
on_remove index s = record s { tokens = remove_at index s.tokens }

-- `!t.tokenInfo || !t.tokenId`
abbrev pub is_unfinished : Token → Bool
is_unfinished t = not (is_some t.token_info) || is_empty t.token_id

-- `state.tokens.findIndex(...) > -1`
unfoldable pub any_unfinished : List Token → Bool
any_unfinished [] = false
any_unfinished (t ∷ ts) = is_unfinished t || any_unfinished ts

-- `filter((t) => t.tokenInfo).forEach((t) => (ret[t.tokenId] = t.tokenInfo!))`
abbrev pub add_info : Text → Option TokenInfo → Dict TokenInfo → Dict TokenInfo
add_info id none ret = ret
add_info id (some info) ret = insert id info ret

unfoldable pub collect : Dict TokenInfo → List Token → Dict TokenInfo
collect ret [] = ret
collect ret (t ∷ ts) = collect (add_info t.token_id t.token_info ret) ts

-- `onDone`: the new state, and the tokens with which `props.onDone` is called.
unfoldable pub on_done : State → State × Option (Dict TokenInfo)
unfolding any_unfinished collect
on_done s =
    if any_unfinished s.tokens
    then (record s { error = codes "Invalid Values. Please check again" }, none)
    else (record s { error = [] }, some (collect [] s.tokens))
