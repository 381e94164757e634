-- ===== src/Mint/BatchMint/Tests.antt =====
-- Minting one token, at concrete states.
use concordium_dapp_examples.Common.{◌≡◌, refl, true, [], ◌∷◌, codes, length, ◌⊎◌, arith}
use concordium_dapp_examples.Common.Dict.{Dict}
use concordium_dapp_examples.Mint.Types.{TokenInfo}
use concordium_dapp_examples.Mint.BatchMint.{
  World, Reach, here, next, click, succeed, start, initial_state, mint_disabled, on_mint_clicked,
  on_minted,
}
use concordium_dapp_examples.Mint.BatchMint.Attempts.{Reach-one_request, two_requests}

abbrev one_token : Dict TokenInfo
one_token =
    (
      codes "01",
      record {
        metadata_url = record { url = codes "ipfs://cat"; hash = [] };
        quantity = codes "1";
      },
    )
    ∷ []

abbrev clicked : World
clicked = record {
  state = on_mint_clicked (initial_state one_token);
  in_flight = initial_state one_token ∷ [];
  failures = 0;
}

abbrev minted_world : World
minted_world = record {
  state = on_minted (initial_state one_token) (on_mint_clicked (initial_state one_token));
  in_flight = [];
  failures = 0;
}

clicked-Reach : Reach one_token clicked
unfolding start initial_state mint_disabled
clicked-Reach = next here (click (start one_token) refl)

minted_world-Reach : Reach one_token minted_world
minted_world-Reach = next clicked-Reach (succeed clicked [] [] (initial_state one_token) refl)

Reach-one_request_example :
    (clicked.in_flight ≡ [])
    ⊎ ((length clicked.in_flight ≡ 1) × (mint_disabled clicked.state ≡ true))
Reach-one_request_example = Reach-one_request (omega arith) clicked-Reach refl

two_requests_example : (w : World) × Reach one_token w × (w.failures ≡ 1) × (length w.in_flight ≡ 2)
two_requests_example = two_requests one_token (codes "Transaction failed")
