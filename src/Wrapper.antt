-- ===== src/Wrapper.antt =====
-- src/cbfs/cbb_client_wrapper.cc: the callbacks of FUSE on open files, over the table `g_files` of
-- the client's files by handle.
pub mod Handles
pub mod Paths
use cbb.Prelude.{
  ℕ, Bool, true, false, ℤ, pos, negsuc, List, [], ◌∷◌, Option, none, some, ◌==◌, ltb, is_zero,
  if◌then◌else◌,
}
use cbb.Text.{Bytes}
use cbb.Common.{to_int32, Error, cbb_success}
use cbb.Client.{Network, Client, M, Ended, ended, raised, aborted, blocked, pure, ◌>>=◌, ◌>>◌}
use cbb.Client.Files
use cbb.Client.Files.{File}

-- std::map<uint64_t, cbb::File>
abbrev pub FileTable : Type 0
FileTable = List (ℕ × File)

unfoldable pub set_file : ℕ → File → FileTable → FileTable
set_file fh file [] = (fh, file) ∷ []
set_file fh file ((k, old) ∷ files) =
    let rest = set_file fh file files in
    if k == fh
    then (fh, file) ∷ files
    else if ltb fh k
    then (fh, file) ∷ (k, old) ∷ files
    else (k, old) ∷ rest

unfoldable pub find_file : ℕ → FileTable → Option File
find_file fh [] = none
find_file fh ((k, file) ∷ files) =
    let rest = find_file fh files in if fh == k then some file else rest

-- The client and its table.
pub record Mount (N : Network) : Type 0 where
  pub client : Client N
  pub files : FileTable

abbrev pub Callback : Network → Type 0 → Type 0
Callback N A = Mount N → Ended A × Mount N

module _ (N : Network) where
  -- An operation of the client, on the table as it is.
  abbrev pub lift : {A : Type 0} → M N A → Callback N A
  lift m v = let (r, c) = m v.client in (r, record v { client = c })

  -- g_files[fi->fh], which makes an entry with the fields of `blank` when there is none.
  unfoldable pub file_of : File → ℕ → Mount N → File × Mount N
  unfolding find_file set_file
  file_of blank fh v = elim (find_file fh v.files) [
    | some file ↦ (file, v)
    | none ↦ (blank, record v { files = set_file fh blank v.files })
  ]

  -- The end of CBFSOpen and CBFSCreate: the result, the handle, and the new entry.
  unfoldable pub keep_file : Error × Option File → Callback N (Error × ℕ)
  unfolding set_file
  keep_file (error, none) v = (ended (error, 0), v)
  keep_file (error, some file) v =
      if is_zero error
      then (ended (pos 0, file.fd), record v { files = set_file file.fd file v.files })
      else (ended (error, 0), v)

  -- What follows an operation of the client.
  abbrev pub then_do : {A B : Type 0} → Callback N A → (A → Callback N B) → Callback N B
  then_do m f v =
      let (r, w) = m v in
      elim r [
        | ended a ↦ f a w
        | raised ↦ (raised, w)
        | aborted ↦ (aborted, w)
        | blocked ↦ (blocked, w)
      ]

  unfoldable pub cbfs_open : Bytes → ℤ → Callback N (Error × ℕ)
  unfolding keep_file
  cbfs_open path flags = then_do (lift (Files.open_file N path flags)) keep_file

  unfoldable pub cbfs_create : Bytes → ℤ → ℕ → Callback N (Error × ℕ)
  unfolding keep_file
  cbfs_create path flags mode = then_do (lift (Files.create N path flags mode)) keep_file

  -- An operation on the file of a handle.
  abbrev pub on_file : {A : Type 0} → File → ℕ → (File → M N A) → Callback N A
  on_file blank fh f v = let (file, w) = file_of blank fh v in lift (f file) w

  -- CBFSRead: the size, as an int, or the error, and the bytes.
  unfoldable pub cbfs_read : File → ℕ → ℕ → ℤ → Callback N (ℤ × Bytes)
  unfolding file_of to_int32
  cbfs_read blank fh size offset = on_file blank fh (λ file. do
    (error, ssize, bs) ← Files.read N file size offset
    pure (if is_zero error then (to_int32 ssize, bs) else (error, bs)))

  -- CBFSWrite
  unfoldable pub cbfs_write : File → ℕ → Bytes → ℤ → Callback N ℤ
  unfolding file_of to_int32
  cbfs_write blank fh buf offset = on_file blank fh (λ file. do
    (error, ssize) ← Files.write N file buf offset
    pure (if is_zero error then to_int32 ssize else error))

  unfoldable pub cbfs_flush : File → ℕ → Callback N Error
  unfolding file_of
  cbfs_flush blank fh = on_file blank fh (Files.flush N)

  -- CBFSRelease: the entry of the handle stays in the table.
  unfoldable pub cbfs_release : File → ℕ → Callback N Error
  unfolding file_of
  cbfs_release blank fh = on_file blank fh (Files.release N)

  unfoldable pub cbfs_fsync : File → ℕ → ℤ → Callback N Error
  unfolding file_of
  cbfs_fsync blank fh datasync = on_file blank fh (λ file. Files.fsync N file datasync)

  unfoldable pub cbfs_ftruncate : File → ℕ → ℤ → Callback N Error
  unfolding file_of
  cbfs_ftruncate blank fh size = on_file blank fh (λ file. Files.ftruncate N file size)
