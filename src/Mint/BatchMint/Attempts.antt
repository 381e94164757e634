-- ===== src/Mint/BatchMint/Attempts.antt =====
-- How many mint requests can be on their way at once.
use concordium_dapp_examples.Common.{
  only_one, not_none, ℕ, suc, ◌<◌, ◌≡◌, refl, Bool, true, false, ◌||◌, [], ◌∷◌, Text, length, arith,
  ◌⊎◌, inl, inr, sym, ap, ◌∙◌,
}
use concordium_dapp_examples.Common.Dict.{Dict}
use concordium_dapp_examples.Common.Int.{pos, ltb_ℤ, ◌+ℤ◌, ◌-ℤ◌}
use concordium_dapp_examples.Mint.Types.{TokenInfo}
use concordium_dapp_examples.Mint.BatchMint.{
  TokenState, State, fresh_tokens, initial_state, set_tokens_state, on_mint_clicked, on_minted,
  on_mint_failed, mint_disabled, World, Step, click, succeed, fail, start, Reach, here, next,
}

length-set_tokens_state :
    (m n : Bool) (e : Text) (d : Dict TokenState) → length (set_tokens_state m n e d) ≡ length d
unfolding set_tokens_state
length-set_tokens_state m n e [] = refl
length-set_tokens_state m n e (t ∷ d) = ap suc (length-set_tokens_state m n e d)

length-fresh_tokens : (d : Dict TokenInfo) → length (fresh_tokens d) ≡ length d
unfolding fresh_tokens
length-fresh_tokens [] = refl
length-fresh_tokens (t ∷ d) = ap suc (length-fresh_tokens d)

or_true : (b : Bool) → (b || true) ≡ true
or_true true = refl
or_true false = refl

-- The states of the component as long as no request has failed, for k tokens.
data Phase (k : ℕ) (w : World) : Type 0 where
  failed_before : 0 < w.failures → Phase k w
  idle :
      w.in_flight ≡ []
      → w.state.minting_count ≡ pos 0
      → w.state.minted ≡ false
      → length w.state.tokens ≡ k
      → Phase k w
  minting :
      (captured : State)
      → w.in_flight ≡ captured ∷ []
      → captured.minting_count ≡ pos 0
      → w.state.minting_count ≡ pos k
      → w.state.minted ≡ false
      → length w.state.tokens ≡ k
      → Phase k w
  done : w.in_flight ≡ [] → w.state.minted ≡ true → Phase k w

Step-Phase : {w v : World} (k : ℕ) → 0 < k → Step w v → Phase k w → Phase k v
unfolding on_mint_clicked on_minted on_mint_failed mint_disabled
Step-Phase k p (click w e) (failed_before h) = failed_before h
Step-Phase k p (click w e) (idle q c m l) =
    minting w.state (ap (λ r. w.state ∷ r) q) c (unfold ◌+ℤ◌ in ground arith) m
      (length-set_tokens_state true false [] w.state.tokens ∙ l)
Step-Phase k p (click w e) (minting s q c n m l) = absurd (ground arith)
Step-Phase k p (click w e) (done q m) = absurd (cc (or_true (ltb_ℤ (pos 0) w.state.minting_count)))
Step-Phase k p (succeed w xs ys s e) (failed_before h) = failed_before h
Step-Phase k p (succeed w xs ys s e) (idle q c m l) = absurd (not_none s xs ys (sym q ∙ e))
Step-Phase k p (succeed w xs ys s e) (minting t q c n m l) =
    done (only_one t s xs ys (sym q ∙ e)).1 refl
Step-Phase k p (succeed w xs ys s e) (done q m) = absurd (not_none s xs ys (sym q ∙ e))
Step-Phase k p (fail w xs ys s e' e) phase = failed_before (omega arith)

Reach-Phase : {d : Dict TokenInfo} {w : World} → 0 < length d → Reach d w → Phase (length d) w
unfolding start initial_state
Reach-Phase {d} h here = idle refl refl refl (length-fresh_tokens d)
Reach-Phase {d} h (next r s) = Step-Phase (length d) h s (Reach-Phase h r)

phase_one :
    (k : ℕ) (w : World)
    → 0 < k
    → w.failures ≡ 0
    → Phase k w
    → (w.in_flight ≡ []) ⊎ ((length w.in_flight ≡ 1) × (mint_disabled w.state ≡ true))
unfolding mint_disabled
phase_one k w p z (failed_before h) = absurd (omega arith)
phase_one k w p z (idle q c m l) = inl q
phase_one k w p z (minting s q c n m l) = inr (ap length q, ground arith)
phase_one k w p z (done q m) = inl q

-- With at least one token and as long as no request has failed, at most one mint request is on its
-- way, and the button is disabled meanwhile.
pub Reach-one_request :
    {d : Dict TokenInfo} {w : World}
    → 0 < length d
    → Reach d w
    → w.failures ≡ 0
    → (w.in_flight ≡ []) ⊎ ((length w.in_flight ≡ 1) × (mint_disabled w.state ≡ true))
Reach-one_request {d} {w} h r z = phase_one (length d) w h z (Reach-Phase h r)

disabled_of_minted : (s : State) → s.minted ≡ true → mint_disabled s ≡ true
unfolding mint_disabled
disabled_of_minted s m = rw m (or_true (ltb_ℤ (pos 0) s.minting_count))

-- With at least one token and no failed request before, once the tokens are minted no request is
-- on its way and the button stays disabled.
pub Reach-minted_once :
    {d : Dict TokenInfo} {w : World}
    → 0 < length d
    → Reach d w
    → w.failures ≡ 0
    → w.state.minted ≡ true
    → (w.in_flight ≡ []) × (mint_disabled w.state ≡ true)
Reach-minted_once {d} {w} h r z m = go (Reach-Phase h r)
  where
    go : Phase (length d) w → (w.in_flight ≡ []) × (mint_disabled w.state ≡ true)
    go (failed_before f) = absurd (omega arith)
    go (idle q c n l) = absurd (cc)
    go (minting s q c n e l) = absurd (cc)
    go (done q n) = (q, disabled_of_minted w.state n)

enabled_after_failure :
    (captured s : State) (message : Text)
    → captured.minting_count ≡ pos 0
    → mint_disabled (on_mint_failed captured message s) ≡ false
unfolding mint_disabled on_mint_failed ◌-ℤ◌
enabled_after_failure captured s message h = ground arith

enabled_after_retry :
    (captured s : State) (message : Text)
    → captured.minting_count ≡ pos 0
    → mint_disabled (on_mint_clicked (on_mint_failed captured message s)) ≡ false
unfolding mint_disabled on_mint_clicked on_mint_failed ◌-ℤ◌ ◌+ℤ◌
enabled_after_retry captured s message h =
    ground (arith, length-set_tokens_state false false message s.tokens)

-- After one failed request two mint requests can be on their way at once, whatever the tokens and
-- the message.
pub two_requests :
    (d : Dict TokenInfo) (message : Text)
    → (w : World) × Reach d w × (w.failures ≡ 1) × (length w.in_flight ≡ 2)
unfolding start initial_state
two_requests d message =
    let first = initial_state d in
    let clicked = next here (click (start d) (unfold mint_disabled initial_state in refl)) in
    let rejected = next clicked (fail _ [] [] first message refl) in
    let retried =
      next rejected (click _ (enabled_after_failure first (on_mint_clicked first) message refl)) in
    let retried_twice =
      next retried (click _ (enabled_after_retry first (on_mint_clicked first) message refl)) in
    (_, retried_twice, refl, refl)
