-- ===== src/Mint/Pinata/Connecting.antt =====
-- How many questions are on their way, and what a late answer does to the text field.
use concordium_dapp_examples.Common.{
  ◌≡◌, refl, sym, ap, ◌∙◌, true, false, [], ◌∷◌, Text, rejected, length, ◌⊎◌, inl, inr, only_one,
  not_none,
}
use concordium_dapp_examples.Mint.Pinata.{
  State, set_pinata_jwt, on_ok_clicked, on_validated, World, Step, typed, clicked, accepted,
  refused, Reach, here, next,
}

-- At most one question is on its way.
data Phase (w : World) : Type 0 where
  quiet : w.asked ≡ [] → Phase w
  asking : (s : State) → w.asked ≡ s ∷ [] → w.state.processing ≡ true → Phase w

Step-Phase : {w v : World} → Step w v → Phase w → Phase v
unfolding set_pinata_jwt on_ok_clicked
Step-Phase (typed w jwt) (quiet q) = quiet q
Step-Phase (typed w jwt) (asking s q p) = asking s q p
Step-Phase (clicked w e) (quiet q) = asking w.state (ap (λ l. w.state ∷ l) q) refl
Step-Phase (clicked w e) (asking s q p) = absurd (cc)
Step-Phase (accepted w xs ys c jwt e d) (quiet q) = absurd (not_none c xs ys (sym q ∙ e))
Step-Phase (accepted w xs ys c jwt e d) (asking s q p) = quiet (only_one s c xs ys (sym q ∙ e)).1
Step-Phase (refused w xs ys c r e d) (quiet q) = absurd (not_none c xs ys (sym q ∙ e))
Step-Phase (refused w xs ys c r e d) (asking s q p) = quiet (only_one s c xs ys (sym q ∙ e)).1

Reach-Phase : {jwt : Text} {w : World} → Reach jwt w → Phase w
Reach-Phase here = quiet refl
Reach-Phase (next r s) = Step-Phase s (Reach-Phase r)

-- In every reachable world of the Pinata form at most one question is on its way, and the buttons
-- are disabled meanwhile.
pub Reach-one_question :
    {jwt : Text} {w : World}
    → Reach jwt w
    → (w.asked ≡ []) ⊎ ((length w.asked ≡ 1) × (w.state.processing ≡ true))
Reach-one_question {jwt} {w} r = elim (Reach-Phase r) [
  | quiet q ↦ inl q
  | asking s q p ↦ inr (ap length q, p)
]

-- From every world in which the Pinata form does not wait for an answer, a click, a change of the
-- text and an answer with an error lead to a world whose text is again the one that was checked.
pub answer_overwrites :
    (w : World) (jwt message : Text)
    → w.state.processing ≡ false
    → (v : World) × (u : World) × (t : World) × Step w v
      × Step v u
      × Step u t
      × (u.state.pinata_jwt ≡ jwt)
      × (t.state.pinata_jwt ≡ w.state.pinata_jwt)
unfolding on_validated set_pinata_jwt on_ok_clicked
answer_overwrites w jwt message idle =
    let v : World = record w { state = on_ok_clicked w.state; asked = w.state ∷ w.asked } in
    let u : World = record v { state = set_pinata_jwt jwt v.state } in
    (
      v,
      u,
      _,
      clicked w idle,
      typed v jwt,
      refused u [] w.asked w.state (rejected message) refl refl,
      refl,
      refl,
    )
