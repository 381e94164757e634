-- ===== src/Market/FindInstance/Search.antt =====
-- Which addresses are found, and a form that is never enabled again.
use mathlib.Core.Path.{subst}
use concordium_dapp_examples.Common.{
  ◌≡◌, refl, ap, ◌⊎◌, inl, inr, true, Option, none, some, Settled, fulfilled, rejected, arith,
  >>=-eq-fulfilled,
}
use concordium_dapp_examples.Common.Int.{ℤ, pos, ◌≤ℤ◌}
use concordium_dapp_examples.Js.{bigint}
use concordium_dapp_examples.Client.{ContractAddress}
use concordium_dapp_examples.Market.FindInstance.{
  State, Form, Support, support, support_by, no_support, Node, thrown, asked, submit, read_address,
  check_address, answer, on_answer, view, checked,
}

check_address_sound :
    (s t : State) (i j : ℤ) (a : ContractAddress)
    → check_address s i j ≡ asked t a
    → (i ≡ a.index) × (j ≡ a.subindex) × (pos 0 ≤ℤ i) × (pos 0 ≤ℤ j)
unfolding check_address
check_address_sound s t i j a h = ground arith

read_address_sound :
    (s t : State) (o p : Option ℤ) (a : ContractAddress)
    → read_address s o p ≡ asked t a
    → (o ≡ some a.index) × (p ≡ some a.subindex) × (pos 0 ≤ℤ a.index) × (pos 0 ≤ℤ a.subindex)
unfolding read_address
read_address_sound s t none p a h = absurd (cc)
read_address_sound s t (some i) none a h = absurd (cc)
read_address_sound s t (some i) (some j) a h =
    let (p, q, m, n) = check_address_sound s t i j a h in
    (ap some p, ap some q, subst (λ k. pos 0 ≤ℤ k) p m, subst (λ k. pos 0 ≤ℤ k) q n)

on_answer_done :
    (captured : State) (r : Settled (Option Support))
    → (on_answer captured r).1 ≡ true
    → r ≡ fulfilled (some support)
unfolding on_answer
on_answer_done captured (fulfilled none) h = absurd (cc)
on_answer_done captured (fulfilled (some support)) h = refl
on_answer_done captured (fulfilled (some support_by)) h = absurd (cc)
on_answer_done captured (fulfilled (some no_support)) h = absurd (cc)
on_answer_done captured (rejected e) h = absurd (cc)

-- A contract address is only handed on when both texts are numbers that are not negative, the
-- instance exists, and the node says that it supports CIS-2 itself.
pub found_sound :
    (node : Node) (form : Form) (s t : State) (a : ContractAddress)
    → submit form s ≡ asked t a
    → (on_answer s (answer node a)).1 ≡ true
    → (bigint form.index ≡ some a.index)
      × (bigint form.subindex ≡ some a.subindex)
      × (pos 0 ≤ℤ a.index)
      × (pos 0 ≤ℤ a.subindex)
      × (node.instance_info a ≡ fulfilled tt)
      × (node.cis0_supports a ≡ fulfilled (some support))
unfolding submit answer
found_sound node form s t a h done =
    let (p, q, m, n) = read_address_sound s t (bigint form.index) (bigint form.subindex) a h in
    let (u, known, supported) =
      >>=-eq-fulfilled (node.instance_info a) (λ _. node.cis0_supports a)
        (on_answer_done s _ done) in
    (p, q, m, n, known, supported)

read_address_thrown :
    (s : State) (o p : Option ℤ) → (o ≡ none) ⊎ (p ≡ none) → read_address s o p ≡ thrown (checked s)
unfolding read_address
read_address_thrown s none p h = refl
read_address_thrown s (some i) none h = refl
read_address_thrown s (some i) (some j) (inl h) = absurd (cc)
read_address_thrown s (some i) (some j) (inr h) = absurd (cc)

-- When one of the texts is no whole number, the form is left disabled without an error and the
-- node is not asked.
pub stuck_checking :
    (form : Form) (s : State)
    → (bigint form.index ≡ none) ⊎ (bigint form.subindex ≡ none)
    → (t : State) × (submit form s ≡ thrown t)
      × ((view t).find_disabled ≡ true)
      × ((view t).shows_checking ≡ true)
      × ((view t).shown_error ≡ none)
unfolding submit view
stuck_checking form s h = (
  checked s,
  read_address_thrown s (bigint form.index) (bigint form.subindex) h,
  refl,
  refl,
  refl,
)
