-- ===== src/Mint/LazyMetadata.antt =====
-- components/cis2/LazyCis2Metadata.tsx: fetches and shows the metadata of a url. `parse` stands for
-- `JSON.parse` as metadata, over a type `M` of metadata.
pub mod Display
mod Tests
use concordium_dapp_examples.Common.{
  Bool, true, false, [], Text, Option, none, some, is_empty, if◌then◌else◌, Settled, fulfilled,
  rejected,
}

pub record State (M : Type 0) : Type 0 where
  pub metadata : Option M
  pub loading_metadata : Bool
  pub error : Text

module _ {M : Type 0} where
  unfoldable pub initial_state : State M
  initial_state = record { metadata = none; loading_metadata = false; error = [] }

  -- The effect that a new url runs, up to the fetch.
  unfoldable pub on_url : State M → State M
  on_url s = record s { loading_metadata = true }

  after_parse : (captured : State M) → Text → Settled M → State M × Option Text
  after_parse captured text (fulfilled m) =
      (record captured { metadata = some m; loading_metadata = false }, some text)
  after_parse captured text (rejected message) =
      (record captured { loading_metadata = false; error = message }, none)

  -- The callbacks of the fetch; `captured` is `state` when the effect ran. The second part is the
  -- call of `onMetadataLoaded`.
  unfoldable pub on_fetched :
      (parse : Text → Settled M) → (captured : State M) → Settled Text → State M × Option Text
  unfolding after_parse
  on_fetched parse captured (fulfilled text) = after_parse captured text (parse text)
  on_fetched parse captured (rejected message) =
      (record captured { loading_metadata = false; error = message }, none)

-- Which of the templates is rendered.
pub data View (M : Type 0) : Type 0 where
  error_template : Text → View M
  loading_template nothing : View M
  loaded_template : M → View M

module _ {M : Type 0} where
  abbrev loaded_or_nothing : Option M → View M
  loaded_or_nothing none = nothing
  loaded_or_nothing (some m) = loaded_template m

  unfoldable pub view : State M → View M
  view s =
      if is_empty s.error
      then (if s.loading_metadata then loading_template else loaded_or_nothing s.metadata)
      else error_template s.error
