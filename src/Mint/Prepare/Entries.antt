-- ===== src/Mint/Prepare/Entries.antt =====
-- The entries of the dictionary of files, counted and looked up.
use mathlib.Core.List.{Memᴰ}
use mathlib.Core.Path.{subst}
use concordium_dapp_examples.Common.{
  ◌+◌, ◌≤◌, ◌<◌, ◌≡◌, ◌≢◌, refl, sym, ap, ◌⊎◌, inl, inr, List, [], ◌∷◌, Text, length, none, some,
  arith, some_of_ne_none, is_some, true, Option, ◌&&◌,
}
use concordium_dapp_examples.Common.Dict.{
  Dict, lookup, insert, length-insert, length-insert_old, lookup-insert_ne_none,
}
use concordium_dapp_examples.Mint.Types.{File, TokenInfo}
use concordium_dapp_examples.Mint.Prepare.{
  FileEntry, fresh, files_map, token_map, add_token, truthy_text, is_prepared,
}

-- One of the files has the name.
abbrev pub SomeName : Text → List File → Type 0
SomeName name [] = ⊥
SomeName name (f ∷ files) = (f.name ≡ name) ⊎ SomeName name files

-- Two of the files have the same name.
abbrev pub SameName : List File → Type 0
SameName [] = ⊥
SameName (f ∷ files) = SomeName f.name files ⊎ SameName files

pub length-files_map :
    (d : Dict FileEntry) (files : List File) → length (files_map d files) ≤ length d + length files
unfolding files_map
length-files_map d [] = omega arith
length-files_map d (f ∷ files) = omega (
  arith,
  length-files_map (insert f.name (fresh f) d) files,
  length-insert {0} f.name (fresh f) d,
)

length-files_map_known :
    (name : Text) (d : Dict FileEntry) (files : List File)
    → lookup name d ≢ none
    → SomeName name files
    → length (files_map d files) < length d + length files
unfolding files_map
length-files_map_known name d [] known h = absurd h
length-files_map_known name d (f ∷ files) known (inl e) =
    let (v, found) = some_of_ne_none (lookup name d) known in
    omega (
      arith,
      length-files_map (insert f.name (fresh f) d) files,
      length-insert_old f.name (fresh f) v d (rw e found),
    )
length-files_map_known name d (f ∷ files) known (inr h) = omega (
  arith,
  length-files_map_known name (insert f.name (fresh f) d) files
      (lookup-insert_ne_none f.name name (fresh f) d (inl known)) h,
  length-insert {0} f.name (fresh f) d,
)

pub length-files_map-SameName :
    (d : Dict FileEntry) (files : List File)
    → SameName files
    → length (files_map d files) < length d + length files
unfolding files_map
length-files_map-SameName d [] h = absurd h
length-files_map-SameName d (f ∷ files) (inl h) = omega (
  arith,
  length-files_map_known f.name (insert f.name (fresh f) d) files
      (lookup-insert_ne_none f.name f.name (fresh f) d (inr refl)) h,
  length-insert {0} f.name (fresh f) d,
)
length-files_map-SameName d (f ∷ files) (inr h) = omega (
  arith,
  length-files_map-SameName (insert f.name (fresh f) d) files h,
  length-insert {0} f.name (fresh f) d,
)

files_map-keeps :
    (name : Text) (d : Dict FileEntry) (files : List File)
    → lookup name d ≢ none
    → lookup name (files_map d files) ≢ none
unfolding files_map
files_map-keeps name d [] h = h
files_map-keeps name d (f ∷ files) h =
    files_map-keeps name (insert f.name (fresh f) d) files
      (lookup-insert_ne_none f.name name (fresh f) d (inl h))

pub files_map-has :
    (f : File) (d : Dict FileEntry) (files : List File)
    → Memᴰ f files
    → lookup f.name (files_map d files) ≢ none
unfolding files_map
files_map-has f d [] m = elim m [ ]
files_map-has f d (g ∷ files) (Memᴰ.head e) =
    files_map-keeps f.name (insert g.name (fresh g) d) files
      (lookup-insert_ne_none g.name f.name (fresh g) d (inr (ap (λ h. h.name) (sym e))))
files_map-has f d (g ∷ files) (Memᴰ.tail m) = files_map-has f (insert g.name (fresh g) d) files m

add_token-keeps :
    (id : Text) (o : Option Text) (i : Option TokenInfo) (ret : Dict TokenInfo)
    → lookup id ret ≢ none
    → lookup id (add_token o i ret) ≢ none
add_token-keeps id none i ret h = h
add_token-keeps id (some k) none ret h = h
add_token-keeps id (some k) (some info) ret h = lookup-insert_ne_none k id info ret (inl h)

add_token-has :
    (o : Option Text) (i : Option TokenInfo) (ret : Dict TokenInfo)
    → (truthy_text o && is_some i) ≡ true
    → (id : Text) × (o ≡ some id) × (lookup id (add_token o i ret) ≢ none)
add_token-has none i ret h = absurd (cc)
add_token-has (some id) none ret h = absurd (ground arith)
add_token-has (some id) (some info) ret h =
    (id, refl, lookup-insert_ne_none id id info ret (inr refl))

token_map-keeps :
    (id : Text) (ret : Dict TokenInfo) (entries : List FileEntry)
    → lookup id ret ≢ none
    → lookup id (token_map ret entries) ≢ none
unfolding token_map
token_map-keeps id ret [] h = h
token_map-keeps id ret (e ∷ entries) h =
    token_map-keeps id (add_token e.token_id e.token_info ret) entries
      (add_token-keeps id e.token_id e.token_info ret h)

-- The id of a prepared entry is a key of the dictionary that is handed on.
pub token_map-has :
    (e : FileEntry) (ret : Dict TokenInfo) (entries : List FileEntry)
    → Memᴰ e entries
    → is_prepared e ≡ true
    → (id : Text) × (e.token_id ≡ some id) × (lookup id (token_map ret entries) ≢ none)
unfolding token_map
token_map-has e ret [] m h = elim m [ ]
token_map-has e ret (g ∷ entries) (Memᴰ.head p) h =
    let (id, named, there) = add_token-has e.token_id e.token_info ret (unfold is_prepared in h) in
    (
      id,
      named,
      token_map-keeps id (add_token g.token_id g.token_info ret) entries
          (subst (λ x. lookup id (add_token x.token_id x.token_info ret) ≢ none) p there),
    )
token_map-has e ret (g ∷ entries) (Memᴰ.tail m) h =
    token_map-has e (add_token g.token_id g.token_info ret) entries m h
