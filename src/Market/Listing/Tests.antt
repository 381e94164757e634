-- ===== src/Market/Listing/Tests.antt =====
-- A marketplace that offers one token.
use concordium_dapp_examples.Common.{
  ◌≡◌, refl, ◌++◌, ◌↔◌, false, List, [], ◌∷◌, Text, codes, Option, none, some, Settled, fulfilled,
  is_empty,
}
use concordium_dapp_examples.Common.Int.{pos}
use concordium_dapp_examples.Client.{ContractAddress, ContractInfo}
use concordium_dapp_examples.Market.MarketClient.{TokenListItem}
use concordium_dapp_examples.Js.{bigint}
use concordium_dapp_examples.Market.Listing.{
  Invocation, InvokeResult, success, integer, digits, TokenListItemJson, Errors, list,
}
use concordium_dapp_examples.Market.Listing.Listed.{AreItems, list_iff}

abbrev market : ContractAddress
market = record { index = pos 12; subindex = pos 0 }

abbrev market_info : ContractInfo
market_info = record { schema_buffer = []; contract_name = codes "Market-NFT"; module_ref = none }

abbrev cat : TokenListItemJson
cat = record {
  token_id = codes "01";
  contract = market;
  price = digits (codes "5");
  owner = codes "owner";
  royalty = pos 0;
  primary_owner = codes "owner";
  quantity = integer (pos 3);
}

abbrev node : Invocation Text → Settled (Option InvokeResult)
node i = fulfilled (some (success (some (codes "00"))))

abbrev decode : Text → Settled (List (List TokenListItemJson))
decode t = fulfilled ((cat ∷ []) ∷ [])

abbrev cat_item : TokenListItem
cat_item = record {
  token_id = codes "01";
  contract = market;
  price = pos 5;
  owner = codes "owner";
  royalty = pos 0;
  primary_owner = codes "owner";
  quantity = pos 3;
}

abbrev errors : Errors
errors = record {
  syntax_error = λ t. codes "Cannot convert " ++ (t ++ codes " to a BigInt");
  range_error = codes "The number cannot be converted to a BigInt because it is not an integer";
  type_error = codes "Cannot read properties of undefined (reading 'map')";
}

list_iff_example : (list errors node decode market market_info ≡ fulfilled (cat_item ∷ [])) ↔ (
    (value : Text) × (items : List TokenListItemJson) × (rest : List (List TokenListItemJson))
    × (node (record {
      parameter = none;
      contract = market;
      invoker = none;
      method = codes "Market-NFT.list";
    })
        ≡ fulfilled (some (success (some value))))
    × (is_empty value ≡ false)
    × (decode value ≡ fulfilled (items ∷ rest))
    × AreItems items (cat_item ∷ []))
list_iff_example = list_iff errors node decode market market_info (cat_item ∷ [])

listed_cat : list errors node decode market market_info ≡ fulfilled (cat_item ∷ [])
unfolding list bigint
listed_cat = refl
