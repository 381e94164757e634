-- ===== src/Mint/Pinata/Tests.antt =====
-- A question to the service.
use concordium_dapp_examples.Common.{refl, [], ◌∷◌, codes}
use concordium_dapp_examples.Mint.Pinata.{
  initial_state, on_ok_clicked, World, clicked, start, Reach, here, next,
}

abbrev asked_world : World
asked_world = record {
  state = on_ok_clicked (initial_state (codes "jwt"));
  asked = initial_state (codes "jwt") ∷ [];
  done = [];
}

asked_world-Reach : Reach (codes "jwt") asked_world
unfolding initial_state
asked_world-Reach = next here (clicked (start (codes "jwt")) refl)
