-- ===== src/Mint/LazyMetadata/Display.antt =====
-- What is shown after a fetch.
use concordium_dapp_examples.Common.{
  ◌≡◌, refl, false, Text, some, is_empty, Settled, fulfilled, rejected,
}
use concordium_dapp_examples.Mint.LazyMetadata.{
  State, on_fetched, after_parse, view, error_template,
}

module _ {M : Type 0} where
  after_parse-loaded :
      (captured : State M) (u text : Text) (p : Settled M)
      → (after_parse captured u p).1 ≡ some text
      → (m : M) × (u ≡ text)
        × (p ≡ fulfilled m)
        × ((after_parse captured u p).0
            ≡ record captured { metadata = some m; loading_metadata = false })
  unfolding after_parse
  after_parse-loaded captured u text (fulfilled m) h = (m, cc, refl, refl)
  after_parse-loaded captured u text (rejected e) h = absurd (cc)

  -- After an earlier error, a later fetch that loads its metadata still shows that error.
  pub view_after_error :
      (parse : Text → Settled M) (s : State M) (r : Settled Text) (text : Text)
      → is_empty s.error ≡ false
      → (on_fetched parse s r).1 ≡ some text
      → view (on_fetched parse s r).0 ≡ error_template s.error
  unfolding on_fetched view
  view_after_error parse s (rejected e) text h done = absurd (cc)
  view_after_error parse s (fulfilled u) text h done =
      let (m, same, parsed, state) = after_parse-loaded s u text (parse u) done in rw (state, h)
