-- ===== src/Trace/Explorer/Journeys.antt =====
-- Which item the table shows.
use mathlib.Core.Path.{subst}
use mathlib.Core.List.{append-nil}
use concordium_dapp_examples.Common.{
  ◌≡◌, refl, ◌++◌, List, [], ◌∷◌, Option, none, some, Settled, fulfilled, rejected, only_one,
  not_none,
}
use concordium_dapp_examples.Trace.Explorer.{
  State, initial_state, Server, Waiting, for_created, for_changed, get_item_status_changed_events,
  get_item_created_event, failure, on_submit, after_created, after_changed, resume, table, World,
  pending, Step, submits, resumes, Reach, here, next,
}

module _ {I Changed Created : Type 0} (server : Server I Changed Created) where
  -- The created event, or the changes, that the server has for an item.
  abbrev pub IsCreated : I → Created → Type 0
  IsCreated id created = get_item_created_event (server.created_event id) ≡ fulfilled created

  abbrev pub IsChanged : I → Changed → Type 0
  IsChanged id changed =
      get_item_status_changed_events (server.changed_events id) ≡ fulfilled changed

  -- A new search is only started when none is running.
  abbrev pub Alone : World I Changed Created → Type 0
  Alone w = w.waiting ≡ []

  -- Both parts of the table belong to one item.
  abbrev pub OfOneItem : State Changed Created → Type 0
  OfOneItem s =
      (created : Created) (changed : Changed)
      → table s ≡ some (created, changed)
      → (id : I) × IsCreated id created × IsChanged id changed

  Holds : List (Waiting I) → State Changed Created → Type 0
  Holds [] s = OfOneItem s
  Holds (for_created id ∷ []) s = (s.item_created ≡ none) × (s.item_changed ≡ none)
  Holds (for_changed id ∷ []) s =
      (created : Created) × (s.item_created ≡ some created)
      × IsCreated id created
      × (s.item_changed ≡ none)
  Holds (t ∷ u ∷ l) s = ⊥

  no_table : (s : State Changed Created) → s.item_changed ≡ none → OfOneItem s
  unfolding table
  no_table s h created changed e = absurd (cc (rw h at e))

  Holds-table : (l : List (Waiting I)) (s : State Changed Created) → Holds l s → OfOneItem s
  unfolding Holds
  Holds-table [] s h = h
  Holds-table (for_created id ∷ []) s h = no_table s h.1
  Holds-table (for_changed id ∷ []) s h = no_table s h.3
  Holds-table (t ∷ u ∷ l) s h = absurd h

  after_created-Holds :
      (id : I) (m : Settled Created) (s : State Changed Created)
      → get_item_created_event (server.created_event id) ≡ m
      → s.item_changed ≡ none
      → Holds (pending (after_created server id m s).1) (after_created server id m s).0
  unfolding after_created Holds failure
  after_created-Holds id (fulfilled created) s e h = (created, refl, e, h)
  after_created-Holds id (rejected m) s e h = no_table _ h

  after_changed-Holds :
      (id : I) (m : Settled Changed) (s : State Changed Created) (created : Created)
      → get_item_status_changed_events (server.changed_events id) ≡ m
      → s.item_created ≡ some created
      → IsCreated id created
      → s.item_changed ≡ none
      → Holds (pending (after_changed server m s).1) (after_changed server m s).0
  unfolding after_changed Holds failure table
  after_changed-Holds id (fulfilled changed) s created e has known h =
      λ event changes shown. (id, cc (rw has at shown), cc (rw has at shown))
  after_changed-Holds id (rejected m) s created e has known h = no_table (failure server m s) h

  resume-Holds :
      (t : Waiting I) (s : State Changed Created)
      → Holds (t ∷ []) s
      → Holds (pending (resume server t s).1) (resume server t s).0
  unfolding resume Holds
  resume-Holds (for_created id) s h = after_created-Holds id _ s refl h.1
  resume-Holds (for_changed id) s (created, has, known, h) =
      after_changed-Holds id _ s created refl has known h

  on_submit-Holds :
      (input : Option I) (s : State Changed Created)
      → Holds (pending (on_submit server input s).1) (on_submit server input s).0
  unfolding on_submit Holds
  on_submit-Holds none s = no_table _ refl
  on_submit-Holds (some id) s = (refl, refl)

  resumes-Holds :
      (l before after : List (Waiting I)) (t : Waiting I) (s : State Changed Created)
      → l ≡ before ++ (t ∷ after)
      → Holds l s
      → Holds (before ++ (pending (resume server t s).1 ++ after)) (resume server t s).0
  resumes-Holds [] before after t s e h = absurd (not_none t before after e)
  resumes-Holds (u ∷ []) [] [] t s e h =
      rw (append-nil (pending (resume server t s).1))
        (resume-Holds t s (subst (λ u. Holds (u ∷ []) s) (only_one u t [] [] e).0 h))
  resumes-Holds (u ∷ []) [] (v ∷ after) t s e h = absurd (cc ((only_one u t [] (v ∷ after) e).1))
  resumes-Holds (u ∷ []) (v ∷ before) after t s e h =
      absurd (cc ((only_one u t (v ∷ before) after e).1))
  resumes-Holds (u ∷ v ∷ l) before after t s e h = absurd (unfold Holds in h)

  Step-Holds :
      {v w : World I Changed Created}
      → Step server Alone v w
      → Holds v.waiting v.state
      → Holds w.waiting w.state
  Step-Holds (submits v input alone) h =
      rw (alone, append-nil (pending (on_submit server input v.state).1))
        (on_submit-Holds input v.state)
  Step-Holds (resumes v before after t e) h = resumes-Holds v.waiting before after t v.state e h

  Reach-Holds : {w : World I Changed Created} → Reach server Alone w → Holds w.waiting w.state
  Reach-Holds here = unfold Holds in no_table initial_state refl
  Reach-Holds (next r st) = Step-Holds st (Reach-Holds r)

  -- If a search is only started when none is running, the creation and the changes that the table
  -- shows are those that the server has for one item.
  pub Reach-table :
      {w : World I Changed Created} (created : Created) (changed : Changed)
      → Reach server Alone w
      → table w.state ≡ some (created, changed)
      → (id : I) × IsCreated id created × IsChanged id changed
  Reach-table {w} created changed r = Holds-table w.waiting w.state (Reach-Holds r) created changed

  resume-created :
      (id : I) (created : Created) (s : State Changed Created)
      → IsCreated id created
      → resume server (for_created id) s
        ≡ (record s { item_created = some created }, some (for_changed id))
  unfolding resume after_created
  resume-created id created s h = rw h refl

  resume-changed :
      (id : I) (changed : Changed) (s : State Changed Created)
      → IsChanged id changed
      → resume server (for_changed id) s ≡ (record s { item_changed = some changed }, none)
  unfolding resume after_changed
  resume-changed id changed s h = rw h refl

  module _ {Allowed : World I Changed Created → Type 0} where
    resumed :
        (s s' : State Changed Created) (before after : List (Waiting I)) (t : Waiting I)
        (p : Option (Waiting I))
        → Reach server Allowed (record { state = s; waiting = before ++ (t ∷ after) })
        → resume server t s ≡ (s', p)
        → Reach server Allowed (record { state = s'; waiting = before ++ (pending p ++ after) })
    resumed s s' before after t p r e =
        subst
          (λ (q : State Changed Created × Option (Waiting I)).
            Reach server Allowed
              (record { state = q.0; waiting = before ++ (pending q.1 ++ after) }))
          e (next r (resumes _ before after t refl))

    submitted :
        (s : State Changed Created) (l : List (Waiting I)) (id : I)
        → Allowed (record { state = s; waiting = l })
        → Reach server Allowed (record { state = s; waiting = l })
        → Reach server Allowed (record { state = initial_state; waiting = for_created id ∷ l })
    unfolding on_submit
    submitted s l id allowed r = next r (submits _ (some id) allowed)

  -- With two searches at a time the table can show the creation of one item above the changes of
  -- another: the first search's changes arrive after the second search's creation.
  pub Reach-mixed :
      (a b : I) (created_a created_b : Created) (changed_a : Changed)
      → IsCreated a created_a
      → IsCreated b created_b
      → IsChanged a changed_a
      → (w : World I Changed Created) × Reach server (λ _. Unit {0}) w
        × (table w.state ≡ some (created_b, changed_a))
  Reach-mixed a b created_a created_b changed_a ha hb hc =
      let first = submitted initial_state [] a tt here in
      let known = resumed _ _ [] [] _ _ first (resume-created a created_a _ ha) in
      let second = submitted _ _ b tt known in
      let shown = resumed _ _ [] _ _ _ second (resume-created b created_b _ hb) in
      let mixed = resumed _ _ (for_changed b ∷ []) [] _ _ shown (resume-changed a changed_a _ hc) in
      (_, mixed, unfold table in refl)
