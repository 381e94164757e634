-- ===== src/Mint/Cards/Tests.antt =====
-- A quantity that is accepted.
use concordium_dapp_examples.Common.{[], codes}
use concordium_dapp_examples.Mint.Cards.{QuantityState}

abbrev card : QuantityState
card = record { quantity_error = []; quantity = codes "1" }
