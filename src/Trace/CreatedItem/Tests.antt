-- ===== src/Trace/CreatedItem/Tests.antt =====
-- The number of a created item at a concrete report.
use concordium_dapp_examples.Common.{
  ◌≡◌, refl, ◌++◌, [], ◌∷◌, none, some, Text, codes, fulfilled, rejected, arith, Option, Settled,
}
use concordium_dapp_examples.Js.{to_string}
use concordium_dapp_examples.Trace.TokenIdU64.{to_token_id_u64}
use concordium_dapp_examples.Trace.CreatedItem.{
  initial_state, Decoder, updated, on_report, id_alert,
}
use concordium_dapp_examples.Trace.CreatedItem.Shown.{on_report-id_alert}

abbrev read_log : Option Text → Settled Text
read_log none = rejected (codes "no event")
read_log (some t) = fulfilled t

abbrev decoder : Decoder Text
decoder = record {
  type_error = codes "Cannot read properties of undefined";
  syntax_error = codes "Cannot convert to a BigInt";
  item_id = read_log;
}

on_report-id_alert_example :
    id_alert
      (on_report decoder (fulfilled (updated ((codes "0a00000000000000" ∷ []) ∷ []))) initial_state)
    ≡ some (codes "Item ID: " ++ to_string 10 10)
unfolding to_token_id_u64
on_report-id_alert_example =
    on_report-id_alert decoder initial_state (codes "0a00000000000000") [] [] 10
      (codes "0a00000000000000") (omega arith) refl refl
