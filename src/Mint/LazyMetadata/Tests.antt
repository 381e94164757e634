-- ===== src/Mint/LazyMetadata/Tests.antt =====
-- One fetch, into a fresh state and into one that shows an error. Metadata are texts here.
use concordium_dapp_examples.Common.{false, Text, codes, Settled, fulfilled, none}
use concordium_dapp_examples.Mint.LazyMetadata.{State}

abbrev parse_any : Text → Settled Text
parse_any t = fulfilled t

abbrev erred : State Text
erred = record {
  metadata = none;
  loading_metadata = false;
  error = codes "Could not load Metadata";
}
