-- ===== src/Faucet/Claim/Tests.antt =====
-- A claim in a concrete environment.
use concordium_dapp_examples.Common.{refl, [], some, Text, codes, fulfilled, eq_text}
use concordium_dapp_examples.Faucet.UsageLimit.{answered, check_usage_limit}
use concordium_dapp_examples.Faucet.Claim.{Environment, Transfer, validate_and_claim}
use concordium_dapp_examples.Faucet.Claim.Payouts.{IsEarned, validate_and_claim-IsEarned}

abbrev environment : Environment Text
environment = record {
  explorer = record {
    explorer_api_url = codes "https://explorer";
    sender_address = codes "faucet";
    fetch = λ path. fulfilled (answered (fulfilled []));
  };
  usage_limit = 24;
  now = 100000;
  node_port = codes "20000";
  node_url = codes "node";
  sender_private_key = codes "key";
  ccd_default_amount = codes "2000000000";
  tweet_details = λ id. fulfilled (some (codes "#Concordium for alice"));
  from_base58 = λ t. fulfilled t;
  next_nonce = λ a. fulfilled 5;
  sign = λ t. fulfilled (codes "signature");
  send = λ t s. fulfilled (codes "hash");
  show_error = λ e. e;
}

abbrev transfer : Transfer Text
transfer = record {
  sender = codes "faucet";
  nonce = 5;
  expiry_minutes = 60;
  amount = codes "2000000000";
  to_address = codes "alice";
}

validate_and_claim-IsEarned_example :
    IsEarned environment
      (codes "POST")
      (codes "42")
      (codes "alice")
      transfer
      (validate_and_claim environment (codes "POST") (codes "42") (codes "alice"))
unfolding validate_and_claim check_usage_limit eq_text
validate_and_claim-IsEarned_example =
    validate_and_claim-IsEarned environment (codes "POST") (codes "42") (codes "alice") transfer []
      refl
