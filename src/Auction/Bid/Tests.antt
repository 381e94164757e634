-- ===== src/Auction/Bid/Tests.antt =====
-- A bid with concrete fields.
use concordium_dapp_examples.Common.{
  ℕ, ◌≡◌, refl, ◌++◌, List, [], ◌∷◌, none, some, codes, Settled, fulfilled, rejected,
}
use concordium_dapp_examples.Js.{to_string, all_digits}
use concordium_dapp_examples.TokenId.{pad_start}
use concordium_dapp_examples.Auction.TokenId.{Number, nan, natural, other, is_nan, hex_string}
use concordium_dapp_examples.Auction.Bid.{
  Message, Request, succeeded, Environment, State, initial_state, item_token, on_submit_signing,
  on_submit_bid, on_signature, change_signer, change_nonce,
}
use concordium_dapp_examples.Auction.Bid.Signing.{Repeats, on_submit_signing-Repeats}

abbrev u16 : Number → Settled (List ℕ)
u16 nan = rejected (codes "not a number")
u16 (natural n) = fulfilled (n ∷ 0 ∷ [])
u16 (other t) = rejected (codes "not a natural number")

abbrev env : Environment
env = record {
  number = λ t. elim (all_digits 10 0 t) [ none ↦ nan | some n ↦ natural n ];
  iso_string = λ t. codes "tomorrow";
  view_item_state = λ n. fulfilled (codes "07");
  serialize_index = u16;
  serialize_transfer = λ t. fulfilled (t.token_id ++ (t.amount ++ t.additional_data));
  post = λ r. fulfilled (succeeded (fulfilled (codes "hash")));
  from_hex_string = fulfilled;
}

abbrev filled : State
filled = record initial_state {
  nonce = codes "1";
  token_amount = codes "5";
  item_index = codes "1";
}

abbrev message : Message
message = record {
  nonce = natural 1;
  expiry = codes "tomorrow";
  account = codes "me";
  payload = codes "0750100";
}

abbrev bid : Request
bid = record {
  signer = codes "me";
  nonce = natural 1;
  signature = codes "ab";
  token_id = some (codes "07");
  from = codes "me";
  token_amount = codes "5";
  item_index = natural 1;
  expiry = codes "tomorrow";
}

on_submit_signing-Repeats_example : Repeats env message (codes "ab") bid
unfolding on_submit_signing on_submit_bid on_signature change_signer item_token is_nan hex_string
    pad_start to_string all_digits
on_submit_signing-Repeats_example =
    on_submit_signing-Repeats env 0 (some (codes "me")) (codes "ab") (codes "me") filled message bid
      refl refl

abbrev signed : State
signed = record filled {
  signature = some (codes "ab");
  expiry_time = codes "tomorrow";
  token_id = some (codes "07");
}

another_nonce :
    (on_submit_bid env (some (codes "me")) (change_nonce (codes "2") signed)).1
    ≡ some (record bid { signer = []; nonce = natural 2 })
unfolding on_submit_bid change_nonce all_digits
another_nonce = refl
