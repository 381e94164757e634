-- ===== src/Trace/Forms/Tests.antt =====
-- The administrator's forms at a concrete node and wallet.
use concordium_dapp_examples.Common.{
  ◌≡◌, refl, [], ◌∷◌, true, none, some, Text, codes, Settled, fulfilled,
}
use concordium_dapp_examples.DryRun.{Contract, Request, Outcome, success, failure, dry_run_and_send}
use concordium_dapp_examples.Trace.Contract.{
  Node, RoleParameter, UpdateStateMachineParameter, add_role,
}
use concordium_dapp_examples.Trace.Contract.Status.{produced, sold}
use concordium_dapp_examples.Trace.Contract.Update.{remove}
use concordium_dapp_examples.Trace.Forms.{initial_state, Click, Addresses, submit_role, submit_rule}
use concordium_dapp_examples.Trace.Forms.Roles.{
  Reads, Asks, role_simulation, role_method, submit_role-Asks,
}

abbrev texts : Addresses Text
texts = record { from_base58 = λ t. fulfilled t; address = λ t. t }

abbrev contract : Contract Text
contract = record {
  name = codes "track_and_trace";
  index = 8;
  show_index = codes "8";
  show_error = λ _. codes "undefined";
  show_response = λ _. codes "{}";
}

abbrev node : Node Text Text
node = record {
  dry_run_create_item = λ _ _. fulfilled none;
  dry_run_revoke_role = λ _ _. fulfilled (some (failure 10));
  dry_run_grant_role = λ _ _. fulfilled (some (success (some (codes "01")) 500));
  dry_run_update_state_machine = λ _ _. fulfilled (some (success (some (codes "01")) 700));
}

abbrev wallet : {P : Type 0} → Request P → Settled Text
wallet r = fulfilled (codes "hash")

abbrev grant_outcome : Outcome (RoleParameter Text)
grant_outcome = record {
  requests =
      record {
        sender = codes "me";
        payload = record {
          amount = 0;
          address = 8;
          receive_name = codes "track_and_trace.grantRole";
          max_energy = 700;
        };
        parameter = record { account = codes "you" };
      }
      ∷ [];
  answer = fulfilled (codes "hash");
}

submit_role-Asks_example :
    (a : Text) × Reads texts (some (codes "you")) a
    × Asks texts contract wallet true
        (some (codes "me"))
        (role_simulation texts node contract true)
        (role_method texts node contract true)
        (record { account = a })
        grant_outcome
unfolding submit_role add_role dry_run_and_send
submit_role-Asks_example =
    submit_role-Asks texts node contract wallet true (some (codes "me")) true (some (codes "you"))
      initial_state initial_state grant_outcome refl

abbrev rule_outcome : Outcome (UpdateStateMachineParameter Text)
rule_outcome = record {
  requests =
      record {
        sender = codes "me";
        payload = record {
          amount = 0;
          address = 8;
          receive_name = codes "track_and_trace.updateStateMachine";
          max_energy = 900;
        };
        parameter = record {
          address = codes "you";
          to_status = sold;
          from_status = produced;
          update = remove;
        };
      }
      ∷ [];
  answer = fulfilled (codes "hash");
}

refused :
    submit_rule texts node contract wallet true
      (some (codes "me"))
      true
      none
      none
      (some [])
      initial_state
    ≡ Click.threw
        (record initial_state { error = some (codes "'from_status' input field is undefined") })
        (codes "'from_status' input field is undefined")
unfolding submit_rule
refused = refl
