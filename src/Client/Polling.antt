-- ===== src/Client/Polling.antt =====
-- The poll for a transaction's outcome: the first report that is not pending decides.
use concordium_dapp_examples.Common.{
  ℕ, zero, suc, ◌+◌, ◌<◌, ◌≡◌, refl, sym, ◌∙◌, Option, some, Settled, fulfilled, rejected, Text,
  arith, ◌⊎◌, inl, inr,
}
use mathlib.Core.Path.{subst}
use concordium_dapp_examples.Client.{
  Summary, TransactionStatus, received, committed, finalized, wait,
}

-- The report leaves the question open.
abbrev pub IsPending : Settled TransactionStatus → Type 0
IsPending r = (r ≡ fulfilled received) ⊎ (r ≡ fulfilled committed)

-- What a report that closes the question settles the promise with.
abbrev pub Decides : Settled TransactionStatus → Settled (Option Summary) → Type 0
Decides r result =
    ((o : Option Summary) × (r ≡ fulfilled (finalized o)) × (result ≡ fulfilled o))
    ⊎ ((e : Text) × (r ≡ rejected e) × (result ≡ rejected e))

wait-skip :
    (reports : ℕ → Settled TransactionStatus) (f k : ℕ)
    → IsPending (reports k)
    → wait reports (suc f) k ≡ wait reports f (k + 1)
unfolding wait
wait-skip reports f k (inl p) = rw (p, wait)
wait-skip reports f k (inr p) = rw (p, wait)

wait-stop :
    (reports : ℕ → Settled TransactionStatus) (f k : ℕ) (result : Settled (Option Summary))
    → Decides (reports k) result
    → wait reports (suc f) k ≡ some result
unfolding wait
wait-stop reports f k result (inl (o, p, q)) = rw (p, q, wait)
wait-stop reports f k result (inr (e, p, q)) = rw (p, q, wait)

wait_from :
    (reports : ℕ → Settled TransactionStatus) (result : Settled (Option Summary)) (n f k : ℕ)
    → n < f
    → ((i : ℕ) → i < n → IsPending (reports (k + i)))
    → Decides (reports (k + n)) result
    → wait reports f k ≡ some result
wait_from reports result n zero k h pending d = absurd (omega arith)
wait_from reports result zero (suc f) k h pending d =
    wait-stop reports f k result (subst (λ j. Decides (reports j) result) (omega arith) d)
wait_from reports result (suc n) (suc f) k h pending d =
    wait-skip reports f k
      (subst (λ j. IsPending (reports j)) (omega arith) (pending 0 (omega arith)))
    ∙ wait_from reports result n f (k + 1) (omega arith)
        (λ i lt. subst (λ j. IsPending (reports j)) (omega arith) (pending (suc i) (omega arith)))
        (subst (λ j. Decides (reports j) result) (omega arith) d)

-- If the first n reports about a transaction are pending and the n-th decides, then any fuel above
-- n settles the promise, with what that report says.
pub wait_first :
    (reports : ℕ → Settled TransactionStatus) (result : Settled (Option Summary)) (n fuel : ℕ)
    → n < fuel
    → ((i : ℕ) → i < n → IsPending (reports i))
    → Decides (reports n) result
    → wait reports fuel 0 ≡ some result
wait_first reports result n fuel h pending d =
    wait_from reports result n fuel 0 h
      (λ i lt. subst (λ j. IsPending (reports j)) (omega arith) (pending i lt))
      (subst (λ j. Decides (reports j) result) (omega arith) d)

wait_step :
    (reports : ℕ → Settled TransactionStatus) (f k : ℕ) (r : Settled TransactionStatus)
    → reports k ≡ r
    → (result : Settled (Option Summary)) → wait reports (suc f) k ≡ some result
    → Decides r result ⊎ (wait reports f (k + 1) ≡ some result)
wait_step reports f k (rejected e) p result h =
    inl (inr (e, refl, cc (wait-stop reports f k (rejected e) (inr (e, p, refl)))))
wait_step reports f k (fulfilled received) p result h =
    inr (sym (wait-skip reports f k (inl p)) ∙ h)
wait_step reports f k (fulfilled committed) p result h =
    inr (sym (wait-skip reports f k (inr p)) ∙ h)
wait_step reports f k (fulfilled (finalized o)) p result h =
    inl (inl (o, refl, cc (wait-stop reports f k (fulfilled o) (inl (o, p, refl)))))

-- A promise is only ever settled by a report of the node that decides.
pub wait_sound :
    (reports : ℕ → Settled TransactionStatus) (f k : ℕ) (result : Settled (Option Summary))
    → wait reports f k ≡ some result
    → (n : ℕ) × Decides (reports n) result
unfolding wait
wait_sound reports zero k result h = cc
wait_sound reports (suc f) k result h = elim (wait_step reports f k (reports k) refl result h) [
  | inl d ↦ (k, d)
  | inr later ↦ wait_sound reports f (k + 1) result later
]
