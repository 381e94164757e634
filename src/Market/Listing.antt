-- ===== src/Market/Listing.antt =====
-- The tokens on sale: `invokeContract` of common-ui/src/models/ConcordiumContractClient.ts and `list`
-- of models/MarketplaceClient.ts. The node, the SDK's decoder and the messages of
-- the engine's errors are parameters.
pub mod Listed
mod Tests
use concordium_dapp_examples.Common.{
  List, [], ◌∷◌, ◌++◌, Text, codes, Option, none, some, Settled, fulfilled, rejected, is_empty,
  if◌then◌else◌, ◌>>=◌,
}
use concordium_dapp_examples.Common.Int.{ℤ}
use concordium_dapp_examples.Js.{bigint, bigint_to_string}
use concordium_dapp_examples.Client.{ContractAddress, ContractInfo}
use concordium_dapp_examples.Market.MarketClient.{TokenListItem}

-- The arguments of `grpcClient.invokeContract`, over the type `P` of parameters. Serialising them is
-- the SDK's.
pub record Invocation (P : Type 0) : Type 0 where
  pub parameter : Option P
  pub contract : ContractAddress
  pub invoker : Option Text
  pub method : Text

-- `InvokeContractResult` by its `tag`; an absent return value is none.
pub data InvokeResult : Type 0 where
  failure : InvokeResult
  success : (return_value : Option Text) → InvokeResult

contract_text : Text → ContractAddress → Text
contract_text method_name contract =
    codes "method:"
    ++ (method_name
        ++ (codes ", contract:(index: "
            ++ (bigint_to_string contract.index
                ++ (codes ", subindex: " ++ (bigint_to_string contract.subindex ++ codes ")")))))

-- The value that `Buffer.from(res.returnValue, 'hex')` reads: a text that is not empty.
unfoldable pub check_result : Text → ContractAddress → Option InvokeResult → Settled Text
unfolding contract_text
check_result method_name contract none =
    rejected (codes "failed invoking contract " ++ contract_text method_name contract)
check_result method_name contract (some failure) =
    rejected (codes "failed invoking contract " ++ contract_text method_name contract)
check_result method_name contract (some (success none)) =
    rejected
      (codes "failed invoking contract, null return value" ++ contract_text method_name contract)
check_result method_name contract (some (success (some value))) =
    if is_empty value
    then rejected
        (codes "failed invoking contract, null return value" ++ contract_text method_name contract)
    else fulfilled value

abbrev pub invocation :
    {P : Type 0} → ContractInfo → ContractAddress → Text → Option P → Option Text → Invocation P
invocation info contract method_name params invoker = record {
  parameter = params;
  contract = contract;
  invoker = invoker;
  method = info.contract_name ++ (codes "." ++ method_name);
}

unfoldable pub invoke_contract :
    {P : Type 0}
    → (Invocation P → Settled (Option InvokeResult))
    → ContractInfo
    → ContractAddress
    → Text
    → Option P
    → Option Text
    → Settled Text
unfolding check_result
invoke_contract node info contract method_name params invoker =
    node (invocation info contract method_name params invoker) >>= check_result method_name contract

-- A price or a quantity as the SDK's decoder hands it over, whatever the declared type says: an
-- integer, a text, or a number that is no integer.
pub data JsonNumber : Type 0 where
  integer : ℤ → JsonNumber
  digits : Text → JsonNumber
  fraction : JsonNumber

-- `TokenListItemJSON`
pub record TokenListItemJson : Type 0 where
  pub token_id : Text
  pub contract : ContractAddress
  pub price : JsonNumber
  pub owner : Text
  pub royalty : ℤ
  pub primary_owner : Text
  pub quantity : JsonNumber

-- What the engine throws: for a text that `BigInt` cannot read, for a number that is no integer,
-- and for the field `map` of `undefined`.
pub record Errors : Type 0 where
  pub syntax_error : Text → Text
  pub range_error : Text
  pub type_error : Text

module _ (errors : Errors) where
  abbrev read_or_throw : Text → Option ℤ → Settled ℤ
  read_or_throw t none = rejected (errors.syntax_error t)
  read_or_throw t (some n) = fulfilled n

  -- `BigInt(value)`
  unfoldable pub to_bigint : JsonNumber → Settled ℤ
  to_bigint (integer n) = fulfilled n
  to_bigint (digits t) = read_or_throw t (bigint t)
  to_bigint fraction = rejected errors.range_error

  -- The callback of `map`.
  unfoldable pub to_item : TokenListItemJson → Settled TokenListItem
  unfolding to_bigint
  to_item t = do
    price ← to_bigint t.price
    quantity ← to_bigint t.quantity
    fulfilled (record {
      token_id = t.token_id;
      contract = t.contract;
      price = price;
      owner = t.owner;
      royalty = t.royalty;
      primary_owner = t.primary_owner;
      quantity = quantity;
    })

  unfoldable pub to_items : List TokenListItemJson → Settled (List TokenListItem)
  unfolding to_item
  to_items [] = fulfilled []
  to_items (t ∷ items) = do item ← to_item t; rest ← to_items items; fulfilled (item ∷ rest)

  -- `retValueDe[0].map(...)`
  unfoldable pub first_list : List (List TokenListItemJson) → Settled (List TokenListItem)
  unfolding to_items
  first_list [] = rejected errors.type_error
  first_list (items ∷ rest) = to_items items

  unfoldable pub list :
      {P : Type 0}
      → (Invocation P → Settled (Option InvokeResult))
      → (Text → Settled (List (List TokenListItemJson)))
      → ContractAddress
      → ContractInfo
      → Settled (List TokenListItem)
  unfolding invoke_contract first_list
  list node decode market info =
      invoke_contract node info market (codes "list") none none >>= λ value.
      decode value >>= first_list
