-- ===== src/DryRun/Sending.antt =====
-- When an operation reaches the wallet.
use concordium_dapp_examples.Common.{
  ℕ, ◌+◌, ◌≡◌, refl, ◌++◌, ◌⊎◌, inl, inr, [], ◌∷◌, Option, none, some, Text, codes, Settled,
  fulfilled, rejected,
}
use concordium_dapp_examples.DryRun.{
  Simulation, failure, success, Request, Outcome, Contract, returned, simulated, request, sent,
  dry_run_and_send,
}

-- The simulation succeeded with a return value, and used that energy.
pub record Succeeds {V : Type 0} (run : Settled (Option (Simulation V))) (energy : ℕ) : Type 0 where
  pub value : V
  pub simulated_so : run ≡ fulfilled (some (success (some value) energy))

-- The wallet is not asked, and the promise is rejected.
pub record NotSent {P : Type 0} (o : Outcome P) : Type 0 where
  pub nothing : o.requests ≡ []
  pub message : Text
  pub fails : o.answer ≡ rejected message

module _ {V P : Type 0} where
  -- The wallet is asked once, for the given parameter, with no CCD and the energy of the simulation
  -- plus 200, and its answer is passed on.
  pub record IsSent (wallet : Request P → Settled Text) (c : Contract V) (method sender : Text)
      (parameter : P) (energy : ℕ) (o : Outcome P) : Type 0 where
    pub question : Request P
    pub asked_once : o.requests ≡ question ∷ []
    pub passed_on : o.answer ≡ wallet question
    pub same_sender : question.sender ≡ sender
    pub same_parameter : question.parameter ≡ parameter
    pub no_ccd : question.payload.amount ≡ 0
    pub same_contract : question.payload.address ≡ c.index
    pub names_method : question.payload.receive_name ≡ c.name ++ (codes "." ++ method)
    pub more_energy : question.payload.max_energy ≡ energy + 200

  module _ (node : Text → P → Settled (Option (Simulation V))) (wallet : Request P → Settled Text)
      (c : Contract V) (method sender : Text) (parameter : P) where
    -- Sent if the simulation succeeds, and refused if not.
    abbrev pub Judged : Settled (Option (Simulation V)) → Outcome P → Type 0
    Judged run o =
        ((energy : ℕ) × Succeeds run energy × IsSent wallet c method sender parameter energy o)
        ⊎ (((energy : ℕ) → ¬ Succeeds run energy) × NotSent o)

    -- The name of the entry point that an error message quotes may be another one.
    pub sent_cases :
        (quoted : Text) (run : Settled (Option (Simulation V)))
        → Judged run (sent wallet c method sender parameter (simulated c quoted run))
    unfolding sent simulated returned request
    sent_cases quoted (rejected e) =
        inr
          ((λ energy s. cc (s.simulated_so)), record { nothing = refl; message = e; fails = refl })
    sent_cases quoted (fulfilled none) =
        inr
          ((λ energy s. cc (s.simulated_so)), record { nothing = refl; message = _; fails = refl })
    sent_cases quoted (fulfilled (some (failure used))) =
        inr
          ((λ energy s. cc (s.simulated_so)), record { nothing = refl; message = _; fails = refl })
    sent_cases quoted (fulfilled (some (success none used))) =
        inr
          ((λ energy s. cc (s.simulated_so)), record { nothing = refl; message = _; fails = refl })
    sent_cases quoted (fulfilled (some (success (some v) used))) = inl (
      used,
      record { value = v; simulated_so = refl },
      record {
        question = request c method sender parameter used;
        asked_once = refl;
        passed_on = refl;
        same_sender = refl;
        same_parameter = refl;
        no_ccd = refl;
        same_contract = refl;
        names_method = refl;
        more_energy = refl;
      },
    )

    -- Either the simulation succeeds and the request is sent, or it does not and nothing is sent.
    pub dry_run_and_send_cases :
        Judged (node sender parameter) (dry_run_and_send node wallet c method sender parameter)
    unfolding dry_run_and_send
    dry_run_and_send_cases = sent_cases method (node sender parameter)
