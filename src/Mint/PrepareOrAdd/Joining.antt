-- ===== src/Mint/PrepareOrAdd/Joining.antt =====
-- When the joined tokens are handed on, and which they are.
use concordium_dapp_examples.Common.{
  ◌≡◌, ◌≢◌, refl, ◌∙◌, ap, false, List, [], ◌∷◌, Text, Option, none, some,
}
use concordium_dapp_examples.Common.Dict.{
  Dict, merge, lookup, HasDistinctKeys, or_else, lookup-merge,
}
use concordium_dapp_examples.Client.{ContractAddress}
use concordium_dapp_examples.Mint.Types.{File, TokenInfo}
use concordium_dapp_examples.Mint.MintPage
use concordium_dapp_examples.Mint.MintPage.{prepare_or_add, step_content}
use concordium_dapp_examples.Mint.PrepareOrAdd.{
  State, initial_state, on_prep_done, on_add_done, renders_prepare, Reach, here, prep, add,
}

or_else-none : {V : Type 0} (o : Option V) → or_else o none ≡ o
or_else-none none = refl
or_else-none (some v) = refl

lookup-joined :
    (k : Text) (d e : Dict TokenInfo)
    → HasDistinctKeys d
    → HasDistinctKeys e
    → lookup k (merge (merge [] d) e) ≡ or_else (lookup k e) (lookup k d)
unfolding lookup
lookup-joined k d e hd he =
    lookup-merge k (merge [] d) e he
    ∙ ap (or_else (lookup k e)) (lookup-merge k [] d hd ∙ or_else-none (lookup k d))

-- With uploaded files and each side done once, in either order: the first call hands nothing on,
-- the second hands on the tokens of both sides, where the side that was done last wins a token id
-- that both have.
pub both_sides :
    (f : File) (files : List File) (prepared added : Dict TokenInfo) (k : Text)
    → HasDistinctKeys prepared
    → HasDistinctKeys added
    → let s = initial_state (f ∷ files) in
      ((on_prep_done prepared s).1 ≡ none)
      × ((on_add_done added s).1 ≡ none)
      × ((joined : Dict TokenInfo) × ((on_add_done added (on_prep_done prepared s).0).1
            ≡ some joined)
          × (lookup k joined ≡ or_else (lookup k added) (lookup k prepared)))
      × ((joined : Dict TokenInfo) × ((on_prep_done prepared (on_add_done added s).0).1
            ≡ some joined)
          × (lookup k joined ≡ or_else (lookup k prepared) (lookup k added)))
unfolding initial_state on_prep_done on_add_done
both_sides f files prepared added k hp ha = (
  refl,
  refl,
  (merge (merge [] prepared) added, refl, lookup-joined k prepared added hp ha),
  (merge (merge [] added) prepared, refl, lookup-joined k added prepared ha hp),
)

-- The files' side is still open as long as it is not rendered.
open_side :
    {files : List File} {pinata_jwt : Text} {s : State}
    → renders_prepare files pinata_jwt ≡ false
    → files ≢ []
    → Reach files pinata_jwt s
    → s.is_prep_done ≡ false
unfolding initial_state on_add_done
open_side {files = []} h n here = absurd (n refl)
open_side {files = f ∷ files} h n here = refl
open_side h n (prep tokens r e) = absurd (cc)
open_side h n (add tokens r) = open_side h n r

-- The wizard can reach its fourth step with uploaded files and without a Pinata token; there the
-- tokens added by url are not handed on in any state of that step.
pub skipped_after_upload :
    (a : ContractAddress) (jwt : Text) (f : File) (files : List File) (s : State)
    (tokens : Dict TokenInfo)
    → Reach (f ∷ files) [] s
    → (w : MintPage.State) × MintPage.Reach w
      × (step_content w ≡ prepare_or_add [] (f ∷ files))
      × ((on_add_done tokens s).1 ≡ none)
unfolding on_add_done step_content renders_prepare MintPage.initial_state MintPage.go_back
    MintPage.on_get_collection_address MintPage.on_pinata_connected MintPage.on_files_uploaded
    MintPage.on_pinata_skipped
skipped_after_upload a jwt f files s tokens r =
    let found = MintPage.next MintPage.here (MintPage.collection _ a refl) in
    let connected = MintPage.next found (MintPage.connected _ jwt refl) in
    let uploaded = MintPage.next connected (MintPage.uploaded _ (f ∷ files) refl) in
    let once_back = MintPage.next uploaded (MintPage.back _) in
    let twice_back = MintPage.next once_back (MintPage.back _) in
    (_, MintPage.next twice_back (MintPage.skipped _ refl), refl, rw (open_side refl (λ e. cc) r))
