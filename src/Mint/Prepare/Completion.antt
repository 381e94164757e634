-- ===== src/Mint/Prepare/Completion.antt =====
-- When the collected metadata is handed on.
use mathlib.Core.List.{Memᴰ}
use mathlib.Core.Path.{subst}
use concordium_dapp_examples.Common.{
  ◌≡◌, ◌≢◌, refl, ◌∙◌, inl, true, List, [], Text, length, count_if, count_if-All,
  count_if-le-length, All, All-mem, none, some, arith, some_of_ne_none,
}
use concordium_dapp_examples.Common.Dict.{
  Dict, lookup, values, mem_values, length-insert_old, lookup-insert_ne_none, length-values,
}
use concordium_dapp_examples.Mint.Types.{File, TokenInfo}
use concordium_dapp_examples.Mint.Prepare.Entries.{
  SameName, length-files_map, length-files_map-SameName, files_map-has, token_map-has,
}
use concordium_dapp_examples.Mint.Prepare.{
  FileEntry, State, files_map, initial_state, prepared_files, is_prepared, token_map,
  on_metadata_prepared, Reach, here, next,
}

-- What holds of every state that the callbacks lead to.
record IsTracked (files : List File) (d : Dict FileEntry) : Type 0 where
  same_length : length d ≡ length (files_map [] files)
  has_entry : (f : File) → Memᴰ f files → lookup f.name d ≢ none

prepared_files-IsTracked :
    (files : List File) (f : File) (id : Text) (info : TokenInfo) (s : State)
    → Memᴰ f files
    → IsTracked files s.files
    → IsTracked files (prepared_files f id info s)
unfolding prepared_files
prepared_files-IsTracked files f id info s m h =
    let (v, found) = some_of_ne_none (lookup f.name s.files) (h.has_entry f m) in
    record {
      same_length = length-insert_old f.name _ v s.files found ∙ h.same_length;
      has_entry = λ g n. lookup-insert_ne_none f.name g.name _ s.files (inl (h.has_entry g n));
    }

Reach-IsTracked : {files : List File} {s : State} → Reach files s → IsTracked files s.files
unfolding initial_state on_metadata_prepared
Reach-IsTracked {files} here = record {
  same_length = refl;
  has_entry = λ f m. files_map-has f [] files m;
}
Reach-IsTracked {files} (next {s = t} f id info r m) =
    prepared_files-IsTracked files f id info t m (Reach-IsTracked r)

-- The entries of the state after a callback, all prepared when the counts agree.
All-is_prepared :
    (files : List File) (d : Dict FileEntry)
    → IsTracked files d
    → count_if is_prepared (values d) ≡ length files
    → All (λ e. is_prepared e ≡ true) (values d)
All-is_prepared files d h same = count_if-All is_prepared (values d) (
    omega (
      arith,
      h.same_length,
      length-files_map [] files,
      length-values {0} d,
      count_if-le-length {0} is_prepared (values d),
    ))

-- With two uploaded files of the same name the metadata is never handed on, whatever the cards do.
pub SameName-never_done :
    (files : List File) (s : State) (f : File) (id : Text) (info : TokenInfo)
    → SameName files
    → Reach files s
    → Memᴰ f files
    → (on_metadata_prepared files f id info s).1 ≡ none
unfolding on_metadata_prepared
SameName-never_done files s f id info twice r m =
    let after = prepared_files-IsTracked files f id info s m (Reach-IsTracked r) in
    let d = prepared_files f id info s in
    ground (
      arith,
      after.same_length,
      length-files_map-SameName [] files twice,
      length-values d,
      count_if-le-length is_prepared (values d),
    )

-- When the metadata of the uploaded files is handed on, every uploaded file has an entry with a
-- token id, and that id is a key of what is handed on.
pub done_complete :
    (files : List File) (s : State) (f : File) (id : Text) (info : TokenInfo) (ret : Dict TokenInfo)
    → Reach files s
    → Memᴰ f files
    → (on_metadata_prepared files f id info s).1 ≡ some ret
    → (g : File) → Memᴰ g files
    → (e : FileEntry) × (gid : Text) × (lookup g.name
          (on_metadata_prepared files f id info s).0.files
        ≡ some e)
      × (e.token_id ≡ some gid)
      × (lookup gid ret ≢ none)
unfolding on_metadata_prepared
done_complete files s f id info ret r m done g n =
    let d = prepared_files f id info s in
    let after = prepared_files-IsTracked files f id info s m (Reach-IsTracked r) in
    let same : count_if is_prepared (values d) ≡ length files = ground arith in
    let (e, found) = some_of_ne_none (lookup g.name d) (after.has_entry g n) in
    let at_entry = mem_values g.name e d found in
    let (gid, named, there) = token_map-has e [] (values d) at_entry (
      All-mem (λ x. is_prepared x ≡ true) e (values d) at_entry
        (All-is_prepared files d after same)) in
    let same_map : token_map [] (values d) ≡ ret = ground arith in
    (e, gid, found, named, subst (λ t. lookup gid t ≢ none) same_map there)
