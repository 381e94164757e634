-- ===== src/Trace/Explorer.antt =====
-- trackAndTrace/frontend/src/components/Explorer.tsx: the journey of an item. The server is a
-- parameter; `I` is what `parseInt` makes of the field.
pub mod Journeys
mod Tests
use concordium_dapp_examples.Common.{
  ◌≡◌, ◌++◌, List, [], ◌∷◌, Option, none, some, Text, codes, Settled, fulfilled, rejected,
}

-- `response.ok`, the body of an error as `JSON.stringify` shows it, and the body of a success, which
-- is a record with a field `data`, or a falsy value.
pub data Response (B : Type 0) : Type 0 where
  failed : Settled Text → Response B
  succeeded : Settled (Option B) → Response B

pub record State (Changed Created : Type 0) : Type 0 where
  pub item_changed : Option Changed
  pub item_created : Option Created
  pub error : Option Text

abbrev pub initial_state : {Changed Created : Type 0} → State Changed Created
initial_state = record { item_changed = none; item_created = none; error = none }

-- `getItemStatusChangedEvents`, up to its call of `setItemChanged`.
unfoldable pub get_item_status_changed_events :
    {Changed : Type 0} → Settled (Response Changed) → Settled Changed
get_item_status_changed_events (rejected e) = rejected e
get_item_status_changed_events (fulfilled (failed (rejected e))) = rejected e
get_item_status_changed_events (fulfilled (failed (fulfilled body))) =
    rejected (codes "Unable to get item's change status events: " ++ body)
get_item_status_changed_events (fulfilled (succeeded (rejected e))) = rejected e
get_item_status_changed_events (fulfilled (succeeded (fulfilled none))) =
    rejected (codes "Unable to get item's change status events")
get_item_status_changed_events (fulfilled (succeeded (fulfilled (some changed)))) =
    fulfilled changed

-- `getItemCreatedEvent`, up to its call of `setItemCreated`.
unfoldable pub get_item_created_event :
    {Created : Type 0} → Settled (Response (Option Created)) → Settled Created
get_item_created_event (rejected e) = rejected e
get_item_created_event (fulfilled (failed (rejected e))) = rejected e
get_item_created_event (fulfilled (failed (fulfilled body))) =
    rejected (codes "Unable to get item's create event: " ++ body)
get_item_created_event (fulfilled (succeeded (rejected e))) = rejected e
get_item_created_event (fulfilled (succeeded (fulfilled none))) =
    rejected (codes "Unable to get item's create event")
get_item_created_event (fulfilled (succeeded (fulfilled (some none)))) =
    rejected (codes "Item not found in database.")
get_item_created_event (fulfilled (succeeded (fulfilled (some (some created))))) = fulfilled created

pub record Server (I Changed Created : Type 0) : Type 0 where
  pub created_event : I → Settled (Response (Option Created))
  pub changed_events : I → Settled (Response Changed)

-- What a running search waits for.
pub data Waiting (I : Type 0) : Type 0 where
  for_created for_changed : I → Waiting I

module _ {I Changed Created : Type 0} (server : Server I Changed Created) where
  failure : Text → State Changed Created → State Changed Created
  failure message s = record s {
    error = some (codes "Couldn't get data from database. Orginal error: " ++ message);
  }

  -- `onSubmit` up to its first `await`; without an id it throws.
  unfoldable pub on_submit :
      Option I → State Changed Created → State Changed Created × Option (Waiting I)
  on_submit none s =
      (record initial_state { error = some (codes "'itemID' input field is undefined") }, none)
  on_submit (some id) s = (initial_state, some (for_created id))

  -- The two continuations.
  after_created :
      I → Settled Created → State Changed Created → State Changed Created × Option (Waiting I)
  unfolding failure
  after_created id (fulfilled created) s =
      (record s { item_created = some created }, some (for_changed id))
  after_created id (rejected e) s = (failure e s, none)

  after_changed :
      Settled Changed → State Changed Created → State Changed Created × Option (Waiting I)
  unfolding failure
  after_changed (fulfilled changed) s = (record s { item_changed = some changed }, none)
  after_changed (rejected e) s = (failure e s, none)

  unfoldable pub resume :
      Waiting I → State Changed Created → State Changed Created × Option (Waiting I)
  unfolding after_created after_changed
  resume (for_created id) s = after_created id (get_item_created_event (server.created_event id)) s
  resume (for_changed id) s =
      after_changed (get_item_status_changed_events (server.changed_events id)) s

-- Both parts are there, so the table is rendered.
unfoldable pub table :
    {Changed Created : Type 0} → State Changed Created → Option (Created × Changed)
table s = elim s.item_changed [
  | none ↦ none
  | some changed ↦ elim s.item_created [ none ↦ none | some created ↦ some (created, changed) ]
]

-- The page and its unfinished searches.
pub record World (I Changed Created : Type 0) : Type 0 where
  pub state : State Changed Created
  pub waiting : List (Waiting I)

abbrev pub pending : {I : Type 0} → Option (Waiting I) → List (Waiting I)
pending none = []
pending (some t) = t ∷ []

module _ {I Changed Created : Type 0} (server : Server I Changed Created) where
  -- A click on the button, where `Allowed` lets it happen, and the end of any pending request.
  pub data Step (Allowed : World I Changed Created → Type 0)
      : World I Changed Created → World I Changed Created → Type 0 where
    submits :
        (w : World I Changed Created) (input : Option I)
        → Allowed w
        → Step Allowed w (record {
          state = (on_submit server input w.state).0;
          waiting = pending (on_submit server input w.state).1 ++ w.waiting;
        })
    resumes :
        (w : World I Changed Created) (before after : List (Waiting I)) (t : Waiting I)
        → w.waiting ≡ before ++ (t ∷ after)
        → Step Allowed w (record {
          state = (resume server t w.state).0;
          waiting = before ++ (pending (resume server t w.state).1 ++ after);
        })

  pub data Reach (Allowed : World I Changed Created → Type 0)
      : World I Changed Created → Type 0 where
    here : Reach Allowed (record { state = initial_state; waiting = [] })
    next : {v w : World I Changed Created} → Reach Allowed v → Step Allowed v w → Reach Allowed w
