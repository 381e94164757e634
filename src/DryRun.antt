-- ===== src/DryRun.antt =====
-- What the contract modules of trackAndTrace/frontend and sponsoredTransactionsAuction/frontend share:
-- an update is simulated on the node first, and only sent through the wallet if the simulation
-- succeeds, with the energy it used and a little more. The node, the wallet and the generated
-- decoders are parameters.
pub mod Sending
use concordium_dapp_examples.Common.{
  ℕ, ◌+◌, ◌++◌, List, [], ◌∷◌, Option, none, some, Text, codes, Settled, fulfilled, rejected, ◌>>=◌,
}

-- The result of `dryRun…`: its tag, the return value of a success, and the energy that was used.
pub data Simulation (V : Type 0) : Type 0 where
  failure : ℕ → Simulation V
  success : Option V → ℕ → Simulation V

-- `EPSILON_ENERGY`
abbrev pub epsilon_energy : ℕ
epsilon_energy = 200

-- `UpdateContractPayload` without its message.
pub record Payload : Type 0 where
  pub amount : ℕ
  pub address : ℕ
  pub receive_name : Text
  pub max_energy : ℕ

-- What `signAndSendTransaction` is called with.
pub record Request (P : Type 0) : Type 0 where
  pub sender : Text
  pub payload : Payload
  pub parameter : P

-- The calls of the wallet, and what the promise settles with.
pub record Outcome (P : Type 0) : Type 0 where
  pub requests : List (Request P)
  pub answer : Settled Text

-- A contract on the node: its name and index, and the texts that an error message quotes.
pub record Contract (V : Type 0) : Type 0 where
  pub name : Text
  pub index : ℕ
  pub show_index : Text
  pub show_error : Option (Simulation V) → Text
  pub show_response : Option (Simulation V) → Text

module _ {V : Type 0} where
  -- `!dryRunResult || tag === 'failure' || !returnValue` throws; otherwise the value and the energy.
  unfoldable pub returned : Option (Simulation V) → Option (V × ℕ)
  returned none = none
  returned (some (failure energy)) = none
  returned (some (success none energy)) = none
  returned (some (success (some v) energy)) = some (v, energy)

  unfoldable pub invoke_error : Contract V → Text → Option (Simulation V) → Text
  invoke_error c method result =
      codes "RPC call 'invokeContract' on method '"
      ++ (c.name
          ++ (codes "."
              ++ (method
                  ++ (codes "' of contract '"
                      ++ (c.show_index
                          ++ (codes "' failed. Decoded error code: "
                              ++ (c.show_error result
                                  ++ (codes ". Original response: "
                                      ++ c.show_response result))))))))

  -- `await dryRun…(contract, parameter, metadata)` may be rejected as well.
  unfoldable pub simulated : Contract V → Text → Settled (Option (Simulation V)) → Settled (V × ℕ)
  unfolding returned invoke_error
  simulated c method run = do
    result ← run
    elim (returned result) [ none ↦ rejected (invoke_error c method result) | some r ↦ fulfilled r ]

  unfoldable pub request : {P : Type 0} → Contract V → Text → Text → P → ℕ → Request P
  request c method sender parameter used_energy = record {
    sender = sender;
    payload = record {
      amount = 0;
      address = c.index;
      receive_name = c.name ++ (codes "." ++ method);
      max_energy = used_energy + epsilon_energy;
    };
    parameter = parameter;
  }

  unfoldable pub sent :
      {P : Type 0}
      → (Request P → Settled Text)
      → Contract V
      → Text
      → Text
      → P
      → Settled (V × ℕ)
      → Outcome P
  unfolding request
  sent wallet c method sender parameter (fulfilled (v, energy)) = record {
    requests = request c method sender parameter energy ∷ [];
    answer = wallet (request c method sender parameter energy);
  }
  sent wallet c method sender parameter (rejected e) = record { requests = []; answer = rejected e }

  -- The whole of an operation: simulate for the sender, then sign and send.
  unfoldable pub dry_run_and_send :
      {P : Type 0}
      → (Text → P → Settled (Option (Simulation V)))
      → (Request P → Settled Text)
      → Contract V
      → Text
      → Text
      → P
      → Outcome P
  unfolding simulated sent
  dry_run_and_send node wallet c method sender parameter =
      sent wallet c method sender parameter (simulated c method (node sender parameter))

  -- A view: the return value of a simulation, decoded.
  unfoldable pub view :
      {R : Type 0}
      → (V → Option R)
      → Contract V
      → Text
      → Settled (Option (Simulation V))
      → Settled R
  unfolding simulated
  view decode c method run = do
    r ← simulated c method run
    elim (decode r.0) [
      | none ↦ rejected (
          codes "Deserializing the returnValue from the '"
          ++ (c.name
              ++ (codes "."
                  ++ (method
                      ++ (codes "' method of contract '" ++ (c.show_index ++ codes "' failed"))))))
      | some value ↦ fulfilled value
    ]
