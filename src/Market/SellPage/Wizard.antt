-- ===== src/Market/SellPage/Wizard.antt =====
-- What the page knows when it offers a token for sale.
use mathlib.Core.List.{Memᴰ}
use mathlib.Core.Path.{subst}
use concordium_dapp_examples.Common.{◌≡◌, ◌≢◌, refl, sym, ◌∙◌, List, Text, Option, some}
use concordium_dapp_examples.Common.Int.{ℤ}
use concordium_dapp_examples.Client.{ContractAddress}
use concordium_dapp_examples.Market.SellPage.{
  Steps, find_collection, check_operator, update_operator, check_token_balance, add_token,
  Cis2Contract, State, initial_state, on_get_collection_address, on_check_operator,
  on_update_operator, on_token_balance, step_content, step_content_of, operator_of,
  update_operator_of, balance_of, marketplace_add, World, Step, found, created, not_created,
  is_operator, no_operator, updated, balance, Reach, here, next,
}

abbrev pub for_address : ContractAddress → Cis2Contract
for_address a = record { contract_address = a }

-- The page has a collection.
abbrev Knows : State → ContractAddress → Type 0
Knows s a = (s.nft_contract ≡ some a) × (s.cis2_contract ≡ some (for_address a))

-- What each step's state holds.
abbrev Holds : Steps → State → List Cis2Contract → List (Cis2Contract × Text × ℤ) → Type 0
Holds find_collection s approved balances = Unit {0}
Holds check_operator s approved balances = (a : ContractAddress) × Knows s a
Holds update_operator s approved balances = (a : ContractAddress) × Knows s a
Holds check_token_balance s approved balances =
    (a : ContractAddress) × Knows s a × Memᴰ (for_address a) approved
Holds add_token s approved balances =
    (a : ContractAddress) × (id : Text) × (total : ℤ) × Knows s a
    × (s.token_id ≡ some id)
    × (s.total_balance ≡ some total)
    × Memᴰ (for_address a) approved
    × Memᴰ (for_address a, id, total) balances

abbrev IsInformed : World → Type 0
IsInformed w = Holds w.state.active_step w.state w.approved w.balances

is_operator_of :
    (step : Steps) (s : State) (c : Option Cis2Contract)
    → step_content_of step s ≡ operator_of c
    → (step ≡ check_operator) × (s.cis2_contract ≡ c)
unfolding step_content_of
is_operator_of find_collection s c h = absurd (cc)
is_operator_of check_operator s c h = (refl, cc)
is_operator_of update_operator s c h = absurd (cc)
is_operator_of check_token_balance s c h = absurd (cc)
is_operator_of add_token s c h = absurd (cc)

is_update_operator_of :
    (step : Steps) (s : State) (c : Option Cis2Contract)
    → step_content_of step s ≡ update_operator_of c
    → (step ≡ update_operator) × (s.cis2_contract ≡ c)
unfolding step_content_of
is_update_operator_of find_collection s c h = absurd (cc)
is_update_operator_of check_operator s c h = absurd (cc)
is_update_operator_of update_operator s c h = (refl, cc)
is_update_operator_of check_token_balance s c h = absurd (cc)
is_update_operator_of add_token s c h = absurd (cc)

is_balance_of :
    (step : Steps) (s : State) (c : Option Cis2Contract)
    → step_content_of step s ≡ balance_of c
    → (step ≡ check_token_balance) × (s.cis2_contract ≡ c)
unfolding step_content_of
is_balance_of find_collection s c h = absurd (cc)
is_balance_of check_operator s c h = absurd (cc)
is_balance_of update_operator s c h = absurd (cc)
is_balance_of check_token_balance s c h = (refl, cc)
is_balance_of add_token s c h = absurd (cc)

known_at :
    (step : Steps) (s : State) (l : List Cis2Contract) (m : List (Cis2Contract × Text × ℤ))
    → step ≢ find_collection
    → Holds step s l m
    → (a : ContractAddress) × Knows s a
known_at find_collection s l m n h = absurd (n refl)
known_at check_operator s l m n h = h
known_at update_operator s l m n h = h
known_at check_token_balance s l m n (a, k, p) = (a, k)
known_at add_token s l m n (a, id, total, k, p, q, r, t) = (a, k)

Step-IsInformed : {w v : World} → Step w v → IsInformed w → IsInformed v
unfolding on_get_collection_address on_check_operator on_update_operator on_token_balance
    step_content
Step-IsInformed (found w a e) h = h
Step-IsInformed (created w xs ys c e) h = (c.address, (refl, refl))
Step-IsInformed (not_created w xs ys c e) h = h
Step-IsInformed (is_operator w c e) h =
    let (at, same) = is_operator_of w.state.active_step w.state (some c) e in
    let (a, k) = known_at w.state.active_step w.state w.approved w.balances (λ p. cc) h in
    (a, k, Memᴰ.head (cc))
Step-IsInformed (no_operator w c e) h =
    let (at, same) = is_operator_of w.state.active_step w.state (some c) e in
    known_at w.state.active_step w.state w.approved w.balances (λ p. cc) h
Step-IsInformed (updated w c e) h =
    let (at, same) = is_update_operator_of w.state.active_step w.state (some c) e in
    let (a, k) = known_at w.state.active_step w.state w.approved w.balances (λ p. cc) h in
    (a, k, Memᴰ.head (cc))
Step-IsInformed (balance w c id total e) h =
    let (at, same) = is_balance_of w.state.active_step w.state (some c) e in
    let (a, k, m) = subst (λ s. Holds s w.state w.approved w.balances) at h in
    (a, id, total, k, refl, refl, m, Memᴰ.head (cc))

Reach-IsInformed : {w : World} → Reach w → IsInformed w
unfolding initial_state
Reach-IsInformed here = tt
Reach-IsInformed (next r s) = Step-IsInformed s (Reach-IsInformed r)

content-marketplace_add :
    (step : Steps) (s : State) (a : Option ContractAddress) (id : Option Text) (total : Option ℤ)
    → step_content_of step s ≡ marketplace_add a id total
    → (step ≡ add_token) × (s.nft_contract ≡ a) × (s.token_id ≡ id) × (s.total_balance ≡ total)
unfolding step_content_of
content-marketplace_add find_collection s a id total h = absurd (cc)
content-marketplace_add check_operator s a id total h = absurd (cc)
content-marketplace_add update_operator s a id total h = absurd (cc)
content-marketplace_add check_token_balance s a id total h = absurd (cc)
content-marketplace_add add_token s a id total h = (refl, cc, cc, cc)

-- In every world that the selling page can reach, the form that lists a token is only rendered
-- with a collection, a token id and a balance; the marketplace was reported or made an operator
-- for that very collection, and the balance was answered by that very collection for that token
-- id.
pub Reach-marketplace_add :
    {w : World} (nft : Option ContractAddress) (id : Option Text) (total : Option ℤ)
    → Reach w
    → step_content w.state ≡ marketplace_add nft id total
    → (a : ContractAddress) × (i : Text) × (t : ℤ) × (nft ≡ some a)
      × (id ≡ some i)
      × (total ≡ some t)
      × Memᴰ (for_address a) w.approved
      × Memᴰ (for_address a, i, t) w.balances
unfolding step_content
Reach-marketplace_add {w} nft id total r e =
    let (at, same_nft, same_id, same_total) =
      content-marketplace_add w.state.active_step w.state nft id total e in
    let (a, i, t, k, p, q, m, b) =
      subst (λ s. Holds s w.state w.approved w.balances) at (Reach-IsInformed r) in
    (a, i, t, sym same_nft ∙ k.0, sym same_id ∙ p, sym same_total ∙ q, m, b)

some_contract :
    (step : Steps) (w : World)
    → step ≢ find_collection
    → Holds step w.state w.approved w.balances
    → (c : Cis2Contract) × (w.state.cis2_contract ≡ some c)
some_contract step w n h =
    let (a, k) = known_at step w.state w.approved w.balances n h in (for_address a, k.1)

-- Every step of the selling page behind the first is rendered with a contract object.
pub Reach-cis2_contract :
    {w : World}
    → Reach w
    → w.state.active_step ≢ find_collection
    → (c : Cis2Contract) × (w.state.cis2_contract ≡ some c)
Reach-cis2_contract {w} r n = some_contract w.state.active_step w n (Reach-IsInformed r)
