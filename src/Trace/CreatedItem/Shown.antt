-- ===== src/Trace/CreatedItem/Shown.antt =====
-- Which number is shown for a created item.
use concordium_dapp_examples.Common.{
  ℕ, ◌^◌, ◌<◌, ◌≡◌, refl, ap, ◌++◌, List, ◌∷◌, some, Text, codes, fulfilled,
}
use concordium_dapp_examples.Common.Int.{pos}
use concordium_dapp_examples.Js.{to_string, bigint_to_string}
use concordium_dapp_examples.Trace.TokenIdU64.{to_token_id_u64, from_token_id_u64}
use concordium_dapp_examples.Trace.TokenIdU64.Numbers.{from_token_id_u64-to_token_id_u64}
use concordium_dapp_examples.Trace.CreatedItem.{
  State, updated, other, Decoder, first_log, id_or_error, logged_id, show_id, on_report, id_alert,
}

module _ {E : Type 0} (d : Decoder E) where
  logged_id_lem :
      (log : E) (logs : List E) (events : List (List E)) (n : ℕ) (token_id : Text)
      → d.item_id (some log) ≡ fulfilled token_id
      → from_token_id_u64 token_id ≡ some (pos n)
      → logged_id d ((log ∷ logs) ∷ events) ≡ fulfilled (pos n)
  unfolding logged_id first_log id_or_error
  logged_id_lem log logs events n token_id decoded reads = rw decoded (ap (id_or_error d) reads)

  -- If the first log of the finalized update carries the token id of a number below 2^64, the page
  -- shows that number in decimal digits.
  pub on_report-id_alert :
      (s : State) (log : E) (logs : List E) (events : List (List E)) (n : ℕ) (token_id : Text)
      → n < 2 ^ 64
      → to_token_id_u64 (pos n) ≡ fulfilled token_id
      → d.item_id (some log) ≡ fulfilled token_id
      → id_alert (on_report d (fulfilled (updated ((log ∷ logs) ∷ events))) s)
        ≡ some (codes "Item ID: " ++ to_string 10 n)
  unfolding on_report show_id id_alert bigint_to_string
  on_report-id_alert s log logs events n token_id small written decoded =
      let (t, is_t, width, reads) = from_token_id_u64-to_token_id_u64 n small in
      let same : t ≡ token_id = cc in
      rw (logged_id_lem log logs events n token_id decoded (rw (← same) reads)) refl

  -- An id that is shown, and an error that is shown, stay when the next report says the opposite.
  pub on_report-stale :
      (s : State) (log : E) (logs : List E) (events : List (List E)) (n : ℕ) (token_id : Text)
      → from_token_id_u64 token_id ≡ some (pos n)
      → d.item_id (some log) ≡ fulfilled token_id
      → ((on_report d (fulfilled (updated ((log ∷ logs) ∷ events))) s).item_id_error
          ≡ s.item_id_error)
        × ((on_report d (fulfilled other) s).new_item_id ≡ s.new_item_id)
  unfolding on_report show_id
  on_report-stale s log logs events n token_id reads decoded =
      (rw (logged_id_lem log logs events n token_id decoded reads) refl, refl)
