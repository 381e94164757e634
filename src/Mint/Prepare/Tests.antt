-- ===== src/Mint/Prepare/Tests.antt =====
-- One uploaded file, and two of the same name.
use mathlib.Core.List.{Memᴰ}
use concordium_dapp_examples.Common.{◌≡◌, ◌≢◌, refl, [], ◌∷◌, Text, codes, none, some, eq_text, inl}
use concordium_dapp_examples.Common.Dict.{Dict, lookup, insert}
use concordium_dapp_examples.Mint.Types.{File, TokenInfo}
use concordium_dapp_examples.Mint.Prepare.{FileEntry, initial_state, on_metadata_prepared, here}
use concordium_dapp_examples.Mint.Prepare.Completion.{SameName-never_done, done_complete}

abbrev cat : File
cat = record { name = codes "cat.jpg" }

abbrev info : TokenInfo
info = record {
  metadata_url = record { url = codes "ipfs://cat"; hash = [] };
  quantity = codes "1";
}

SameName-never_done_example :
    (on_metadata_prepared (cat ∷ cat ∷ []) cat (codes "01") info (initial_state (cat ∷ cat ∷ []))).1
    ≡ none
SameName-never_done_example =
    SameName-never_done (cat ∷ cat ∷ []) (initial_state (cat ∷ cat ∷ [])) cat (codes "01") info
      (inl (inl refl)) here (Memᴰ.head refl)

abbrev ready : Dict TokenInfo
ready = (codes "01", info) ∷ []

done_complete_example :
    (e : FileEntry) × (gid : Text) × (lookup cat.name
        (on_metadata_prepared (cat ∷ []) cat (codes "01") info (initial_state (cat ∷ []))).0.files
      ≡ some e)
    × (e.token_id ≡ some gid)
    × (lookup gid ready ≢ none)
unfolding on_metadata_prepared initial_state insert eq_text lookup
done_complete_example =
    done_complete (cat ∷ []) (initial_state (cat ∷ [])) cat (codes "01") info ready here
      (Memᴰ.head refl) refl cat (Memᴰ.head refl)
