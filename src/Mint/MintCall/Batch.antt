-- ===== src/Mint/MintCall/Batch.antt =====
-- What a batch that was minted asked the contract for.
use mathlib.Core.List.{Memᴰ}
use concordium_dapp_examples.Common.{
  ℕ, ◌≡◌, refl, ap, suc, [], ◌∷◌, Text, codes, none, some, ◌⊎◌, false, is_empty, length, arith,
  Bool-cases, inl, inr, fulfilled, eq_text, eq_text_iff,
}
use concordium_dapp_examples.Common.Dict.{Dict, lookup}
use concordium_dapp_examples.Common.Int.{ℤ, pos}
use concordium_dapp_examples.Client.{ContractAddress, ContractInfo, Provider, Request, Summary}
use concordium_dapp_examples.Client.Sending.{IsFinalized, update_contract_sound}
use concordium_dapp_examples.Client.Outcomes.{IsExecuted}
use concordium_dapp_examples.Mint.Types.{TokenInfo}
use concordium_dapp_examples.Mint.MintCall.{
  MintToken, optional_hash, MintParams, mint_token, mint_tokens, mint_params, mint,
}

mint_tokens-has :
    (id : Text) (info : TokenInfo) (d : Dict TokenInfo)
    → lookup id d ≡ some info
    → Memᴰ (mint_token id info) (mint_tokens d)
unfolding lookup mint_tokens
mint_tokens-has id info [] h = absurd (cc)
mint_tokens-has id info ((j, i) ∷ d) h = elim (Bool-cases (eq_text j id)) [
  | inl e ↦
      let same_info : i ≡ info = ground arith in Memᴰ.head (cc ((eq_text_iff j id).0 e, same_info))
  | inr e ↦ Memᴰ.tail (mint_tokens-has id info d (ground arith))
]

length-mint_tokens : (d : Dict TokenInfo) → length (mint_tokens d) ≡ length d
unfolding mint_tokens
length-mint_tokens [] = refl
length-mint_tokens ((j, i) ∷ d) = ap suc (length-mint_tokens d)

-- The entry of a token: its id, its url, its hash if that is not empty, and its quantity.
pub record IsEntry (id : Text) (info : TokenInfo) (t : MintToken) : Type 0 where
  pub same_id : t.token_id ≡ id
  pub same_url : t.url ≡ info.metadata_url.url
  pub hash_if_any :
      ((info.metadata_url.hash ≡ []) × (t.hash ≡ none))
      ⊎ ((is_empty info.metadata_url.hash ≡ false) × (t.hash ≡ some info.metadata_url.hash))
  pub same_quantity : t.token_amount ≡ info.quantity

optional_hash_cases :
    (hash : Text)
    → ((hash ≡ []) × (optional_hash hash ≡ none))
      ⊎ ((is_empty hash ≡ false) × (optional_hash hash ≡ some hash))
optional_hash_cases [] = inl (refl, refl)
optional_hash_cases (c ∷ hash) = inr (refl, refl)

mint_token-IsEntry : (id : Text) (info : TokenInfo) → IsEntry id info (mint_token id info)
mint_token-IsEntry id info = record {
  same_id = refl;
  same_url = refl;
  hash_if_any = optional_hash_cases info.metadata_url.hash;
  same_quantity = refl;
}

-- If minting a batch succeeds, exactly one request was sent; its parameters name the account as
-- the owner, list as many tokens as the batch has, and list every token that is looked up in the
-- batch with its url, its hash if it has one, and its quantity; the node reported it as finalized
-- and not failed.
pub mint_sound :
    (provider : Provider MintParams) (account : Text) (tokens : Dict TokenInfo)
    (collection : ContractAddress) (contract : ContractInfo) (energy : ℤ) (fuel : ℕ) (s : Summary)
    (id : Text) (info : TokenInfo)
    → (mint provider account tokens collection contract energy fuel).result ≡ some (fulfilled s)
    → lookup id tokens ≡ some info
    → (request : Request MintParams) × (params : MintParams) × (entry : MintToken) × ((mint provider
          account tokens collection contract energy fuel).sent
        ≡ request ∷ [])
      × (request.params ≡ some params)
      × (params.owner ≡ account)
      × (length params.tokens ≡ length tokens)
      × Memᴰ entry params.tokens
      × IsEntry id info entry
      × IsFinalized provider request s
      × IsExecuted s
unfolding mint mint_params
mint_sound provider account tokens collection contract energy fuel s id info h found =
    let (request, sent, payload, given, done, ran) =
      update_contract_sound provider contract (mint_params account tokens) account collection
        (codes "mint") energy (pos 0) fuel s h in
    (
      request,
      mint_params account tokens,
      mint_token id info,
      sent,
      given,
      refl,
      length-mint_tokens tokens,
      mint_tokens-has id info tokens found,
      mint_token-IsEntry id info,
      done,
      ran,
    )
