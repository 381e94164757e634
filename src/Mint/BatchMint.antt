-- ===== src/Mint/BatchMint.antt =====
-- components/cis2/Cis2BatchMint.tsx: one button that mints all prepared tokens. The object `tokens`
-- is created once and mutated in place, so every state and every callback reads the same one; the
-- callbacks of a request read the other fields as they were when the button was clicked.
pub mod Attempts
mod Tests
use concordium_dapp_examples.Common.{
  ℕ, ◌+◌, Bool, true, false, not, ◌||◌, List, [], ◌∷◌, ◌++◌, Text, length, Option, none, some, map,
  ◌≡◌, if◌then◌else◌,
}
use concordium_dapp_examples.Common.Dict.{Dict}
use concordium_dapp_examples.Common.Int.{ℤ, pos, ◌+ℤ◌, ◌-ℤ◌, ltb_ℤ}
use concordium_dapp_examples.Mint.Types.{TokenInfo}

pub record TokenState : Type 0 where
  pub token_info : TokenInfo
  pub minting : Bool
  pub minted : Bool
  pub error : Text

pub record State : Type 0 where
  pub tokens : Dict TokenState
  pub minting_count : ℤ
  pub minted : Bool

-- The `forEach` over `props.tokenMetadataMap`.
unfoldable pub fresh_tokens : Dict TokenInfo → Dict TokenState
fresh_tokens [] = []
fresh_tokens ((id, info) ∷ d) =
    (id, record { token_info = info; minting = false; minted = false; error = [] }) ∷ fresh_tokens d

unfoldable pub initial_state : Dict TokenInfo → State
unfolding fresh_tokens
initial_state d = record { tokens = fresh_tokens d; minting_count = pos 0; minted = false }

unfoldable pub set_tokens_state : Bool → Bool → Text → Dict TokenState → Dict TokenState
set_tokens_state is_minting is_minted error [] = []
set_tokens_state is_minting is_minted error ((id, t) ∷ d) =
    (
      id,
      record t {
        error = error;
        minting = is_minting;
        minted = if is_minting then false else is_minted;
      },
    )
    ∷ set_tokens_state is_minting is_minted error d

-- `onMintClicked`, up to the request.
unfoldable pub on_mint_clicked : State → State
on_mint_clicked s = record s {
  tokens = set_tokens_state true false [] s.tokens;
  minting_count = s.minting_count +ℤ pos (length s.tokens);
}

-- The callback of a request that succeeded; `captured` is `state` at the click.
unfoldable pub on_minted : (captured : State) → State → State
on_minted captured s = record {
  tokens = set_tokens_state false true [] s.tokens;
  minting_count = captured.minting_count +ℤ pos (length s.tokens);
  minted = true;
}

-- The callback of a request that failed with a message.
unfoldable pub on_mint_failed : (captured : State) → Text → State → State
on_mint_failed captured message s = record {
  tokens = set_tokens_state false false message s.tokens;
  minting_count = captured.minting_count -ℤ pos (length s.tokens);
  minted = false;
}

-- `disabled` of the button.
unfoldable pub mint_disabled : State → Bool
mint_disabled s = ltb_ℤ (pos 0) s.minting_count || s.minted

-- The component while requests are on their way: the states captured by their callbacks, and how
-- many have failed.
pub record World : Type 0 where
  pub state : State
  pub in_flight : List State
  pub failures : ℕ

pub data Step : World → World → Type 0 where
  click :
      (w : World)
      → mint_disabled w.state ≡ false
      → Step w (record w { state = on_mint_clicked w.state; in_flight = w.state ∷ w.in_flight })
  succeed :
      (w : World) (earlier later : List State) (captured : State)
      → w.in_flight ≡ earlier ++ (captured ∷ later)
      → Step w (record w { state = on_minted captured w.state; in_flight = earlier ++ later })
  fail :
      (w : World) (earlier later : List State) (captured : State) (message : Text)
      → w.in_flight ≡ earlier ++ (captured ∷ later)
      → Step w (record {
        state = on_mint_failed captured message w.state;
        in_flight = earlier ++ later;
        failures = w.failures + 1;
      })

unfoldable pub start : Dict TokenInfo → World
start d = record { state = initial_state d; in_flight = []; failures = 0 }

pub data Reach (d : Dict TokenInfo) : World → Type 0 where
  here : Reach d (start d)
  next : {w v : World} → Reach d w → Step w v → Reach d v
