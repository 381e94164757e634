-- ===== src/TokenId/RoundTrip.antt =====
-- Token ids name their items: reading one back, its width, and that two items never share one.
use concordium_dapp_examples.Common.{
  ℕ, zero, suc, ◌*◌, ◌^◌, ◌-◌, ◌<◌, ◌≤◌, ◌≡◌, refl, ap, ◌∙◌, ◌++◌, some, Text, arith, length,
  length-append,
}
use concordium_dapp_examples.Js.{all_digits, to_string}
use concordium_dapp_examples.Js.Hex.{all_digits-to_string, length-to_string}
use concordium_dapp_examples.TokenId.{Cis2ContractInfo, replicate, pad_start, to_token_id}

pub all_digits-zeros :
    (k : ℕ) (s : Text) → all_digits 16 0 (replicate k b'0' ++ s) ≡ all_digits 16 0 s
unfolding all_digits
all_digits-zeros zero s = refl
all_digits-zeros (suc k) s = all_digits-zeros k s

-- The token id of a number, read as hexadecimal digits, is that number.
pub all_digits-to_token_id :
    (integer : ℕ) (info : Cis2ContractInfo)
    → all_digits 16 0 (to_token_id integer info) ≡ some integer
unfolding to_token_id
all_digits-to_token_id integer info =
    all_digits-zeros _ (to_string 16 integer) ∙ all_digits-to_string integer

-- Two numbers with the same token id text, for one contract, are the same number.
pub to_token_id_injective :
    (m n : ℕ) (info : Cis2ContractInfo) → to_token_id m info ≡ to_token_id n info → m ≡ n
to_token_id_injective m n info h =
    cc (all_digits-to_token_id m info, all_digits-to_token_id n info, ap (all_digits 16 0) h)

length-replicate : (k c : ℕ) → length (replicate k c) ≡ k
length-replicate zero c = refl
length-replicate (suc k) c = ap suc (length-replicate k c)

pub length-pad_start :
    (width c : ℕ) (s : Text) → length s ≤ width → length (pad_start width c s) ≡ width
unfolding pad_start
length-pad_start width c s h = omega (
  arith,
  length-append {0} (replicate (width - length s) c) s,
  length-replicate (width - length s) c,
)

-- A number that fits into the bytes of a token id of at least one byte is written with exactly two
-- digits for each byte.
pub length-to_token_id :
    (integer : ℕ) (info : Cis2ContractInfo)
    → 0 < info.token_id_byte_size
    → integer < 16 ^ (info.token_id_byte_size * 2)
    → length (to_token_id integer info) ≡ info.token_id_byte_size * 2
unfolding to_token_id
length-to_token_id integer info p h =
    length-pad_start (info.token_id_byte_size * 2) b'0' (to_string 16 integer)
      (length-to_string integer (info.token_id_byte_size * 2) (omega arith) h)
