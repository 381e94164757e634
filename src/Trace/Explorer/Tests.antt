-- ===== src/Trace/Explorer/Tests.antt =====
-- The explorer at a concrete server.
use concordium_dapp_examples.Common.{ℕ, ◌+◌, refl, [], none, some, fulfilled}
use concordium_dapp_examples.Trace.Explorer.{
  Server, succeeded, World, for_created, for_changed, resume, table, submits, resumes, Reach, here,
  next, on_submit, get_item_created_event, get_item_status_changed_events,
}
use concordium_dapp_examples.Trace.Explorer.Journeys.{IsCreated, IsChanged, Alone, Reach-table}

abbrev server : Server ℕ ℕ ℕ
server = record {
  created_event = λ id. fulfilled (succeeded (fulfilled (some (some id))));
  changed_events = λ id. fulfilled (succeeded (fulfilled (some (id + 100))));
}

abbrev searched : World ℕ ℕ ℕ
searched = record {
  state = record { item_changed = some 107; item_created = some 7; error = none };
  waiting = [];
}

searched-Reach : Reach server (Alone server) searched
unfolding on_submit resume get_item_created_event get_item_status_changed_events
searched-Reach =
    next (next (next here (submits _ (some 7) refl)) (resumes _ [] [] (for_created 7) refl))
      (resumes _ [] [] (for_changed 7) refl)

Reach-table_example : (id : ℕ) × IsCreated server id 7 × IsChanged server id 107
unfolding table
Reach-table_example = Reach-table server 7 107 searched-Reach refl
