-- ===== src/Auction/Forms/Items.antt =====
-- What the forms for minting and for items ask the wallet for.
use mathlib.Core.Path.{subst}
use concordium_dapp_examples.Common.{
  ℕ, ◌%◌, ◌≡◌, refl, Bool, true, false, [], ◌∷◌, Option, none, some, Text, codes, Settled,
  fulfilled, rejected, length,
}
use concordium_dapp_examples.Js.{all_digits}
use concordium_dapp_examples.DryRun.{Simulation, Request, Outcome, Contract}
use concordium_dapp_examples.DryRun.Sending.{Judged, sent_cases, dry_run_and_send_cases}
use concordium_dapp_examples.Trace.Forms.{Addresses}
use concordium_dapp_examples.Auction.TokenId.{Number, natural, token_id}
use concordium_dapp_examples.Auction.TokenId.RoundTrip.{all_digits-token_id}
use concordium_dapp_examples.Auction.Contracts.{MintParameter, mint, AddItemParameter, add_item}
use concordium_dapp_examples.Auction.Forms.{
  Submitted, threw, called, with_account, submit_mint, submit_item,
}

module _ {Address : Type 0} (addresses : Addresses Address) where
  -- The account of the wallet, decoded.
  pub record AccountIs (account : Option Text) (a : Address) : Type 0 where
    pub digits : Text
    pub given : account ≡ some digits
    pub decoded : addresses.from_base58 digits ≡ fulfilled a

  with_account-called :
      {P : Type 0} (account : Option Text) (call : Address → Outcome P) (o : Outcome P)
      → with_account addresses account call ≡ called o
      → (a : Address) × AccountIs account a × (call a ≡ o)
  unfolding with_account
  with_account-called none call o h = cc
  with_account-called (some []) call o h = cc
  with_account-called {P} (some (d ∷ account)) call o h =
      decoded_call (addresses.from_base58 (d ∷ account)) refl h
    where
      decoded_call :
          (m : Settled Address)
          → addresses.from_base58 (d ∷ account) ≡ m
          → ◌≡◌ {A = Submitted P}
              (elim m [ fulfilled a ↦ called (call a) | rejected message ↦ threw message ])
              (called o)
          → (a : Address) × AccountIs (some (d ∷ account)) a × (call a ≡ o)
      decoded_call (fulfilled a) e k =
          let same : call a ≡ o = cc in
          (a, record { digits = d ∷ account; given = refl; decoded = e }, same)
      decoded_call (rejected message) e k = cc

-- A token id of two hexadecimal digits for a number.
abbrev pub NamesToken : ℕ → Text → Type 0
NamesToken n t = (length t ≡ 2) × (all_digits 16 0 t ≡ some (n % 256))

token_id-NamesToken : (x : Number) (n : ℕ) → x ≡ natural n → NamesToken n (token_id x)
token_id-NamesToken x n h = rw h (all_digits-token_id n)

module _ {V Address : Type 0} (addresses : Addresses Address) (number : Text → Number)
    (c : Contract V) where
  -- If the field holds a natural number and the form for minting calls the contract, the owner of
  -- the new tokens is the account of the wallet, whatever address is in the form, the token id has
  -- two hexadecimal digits that are read as the number's remainder by 256, and the wallet is asked
  -- to send this, once, if its simulation succeeds, and not asked if not.
  pub submit_mint-Judged :
      (dry_run : MintParameter Address → Settled (Option (Simulation V)))
      (wallet : Request (MintParameter Address) → Settled Text) (metadata_url : Text)
      (connected : Bool) (account : Option Text) (to_address id : Text) (n : ℕ)
      (o : Outcome (MintParameter Address))
      → number id ≡ natural n
      → (submit_mint addresses number c dry_run wallet metadata_url connected account to_address
          id).1
        ≡ called o
      → (p : MintParameter Address) × AccountIs addresses account p.owner
        × NamesToken n p.token_id
        × Judged (λ _. dry_run) wallet c (codes "mint") (addresses.address p.owner) p (dry_run p) o
  unfolding submit_mint mint
  submit_mint-Judged dry_run wallet url false account to_address id n o natural_id h = cc
  submit_mint-Judged dry_run wallet url true account to_address id n o natural_id h =
      let (a, reads, same) = with_account-called addresses account _ o h in
      let p : MintParameter Address = record {
        owner = a;
        url = url;
        token_id = token_id (number id);
      } in
      (
        p,
        reads,
        token_id-NamesToken (number id) n natural_id,
        subst
            (λ q.
              Judged (λ _. dry_run) wallet c (codes "mint") (addresses.address a) p (dry_run p) q)
            same
            (sent_cases (λ _. dry_run) wallet c (codes "mint") (addresses.address a) p
              (codes "nonceOf") (dry_run p)),
      )

  -- If the field holds a natural number and the form for items calls the contract, the item has the name of the form, the times of the
  -- auction, no minimum bid, and the token with the number of the field by two hexadecimal digits;
  -- the wallet is asked to send this, once, if its simulation succeeds, and not asked if not.
  pub submit_item-Judged :
      (dry_run : AddItemParameter → Settled (Option (Simulation V)))
      (wallet : Request AddItemParameter → Settled Text) (auction_start auction_end : ℕ)
      (account : Option Text) (id name : Text) (n : ℕ) (o : Outcome AddItemParameter)
      → number id ≡ natural n
      → (submit_item addresses number c dry_run wallet auction_start auction_end account id name).1
        ≡ called o
      → (a : Address) × (p : AddItemParameter) × AccountIs addresses account a
        × NamesToken n p.token_id
        × (p.name ≡ name)
        × (p.start ≡ auction_start)
        × (p.end ≡ auction_end)
        × (p.minimum_bid ≡ 0)
        × Judged (λ _. dry_run) wallet c (codes "addItem") (addresses.address a) p (dry_run p) o
  unfolding submit_item add_item
  submit_item-Judged dry_run wallet auction_start auction_end account id name n o natural_id h =
      let (a, reads, same) = with_account-called addresses account _ o h in
      let p : AddItemParameter = record {
        name = name;
        start = auction_start;
        end = auction_end;
        minimum_bid = 0;
        token_id = token_id (number id);
      } in
      (
        a,
        p,
        reads,
        token_id-NamesToken (number id) n natural_id,
        refl,
        refl,
        refl,
        refl,
        subst
            (λ q.
              Judged (λ _. dry_run) wallet c (codes "addItem") (addresses.address a) p (dry_run p)
                q)
            same
            (dry_run_and_send_cases (λ _. dry_run) wallet c (codes "addItem") (addresses.address a)
              p),
      )
