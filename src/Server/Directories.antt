-- ===== src/Server/Directories.antt =====
-- The branch of Rename in src/cbb/burst_buffer.cc for a local directory, and
-- DuplicateDirSecondaryToLocal, with the start of the server, which calls it. `fuel` bounds the depth
-- of directories; where it runs out, the search does not end.
use cbb.Prelude.{
  ℕ, zero, suc, Bool, true, false, not, ◌&&◌, neg, pos, List, [], ◌∷◌, ◌++◌, Option, none, some,
  if◌then◌else◌, length, drop,
}
use cbb.Text.{Bytes}
use cbb.Common.{Error, cbb_success, ok, fail}
use cbb.Posix.{Posix, Dirent, Call}
use cbb.Manager.{Manager, local_path, secondary_path}
use cbb.Exporter.{returned, threw, blocked, unregister_all}
use cbb.Exporter.Search
use cbb.Exporter.Search.{is_dot, join, research_local_files}
use cbb.Server.{Server, result, error_reply, Handler, after_lock}
use cbb.Server.Names.{rename_file}

module _ (P : Posix) where
  open P use {State}

  -- A step on the storages that may throw.
  abbrev pub Try : Type 0 → Type 0
  Try A = State → Option A × State

  infixl 5 ◌>>=◌ ◌>>◌
  abbrev ◌>>=◌ : {A B : Type 0} → Try A → (A → Try B) → Try B
  ◌>>=◌ m f s = let (r, t) = m s in elim r [ none ↦ (none, t) | some a ↦ f a t ]

  abbrev ◌>>◌ : {B : Type 0} → Try (Unit {0}) → Try B → Try B
  m >> k = m >>= λ _. k

  abbrev pure : {A : Type 0} → A → Try A
  pure a s = (some a, s)

  -- A call without an error code throws when it fails.
  abbrev or_throw : Call State → Try (Unit {0})
  or_throw call s = let (r, t) = call s in elim r [ ok n ↦ (some tt, t) | fail e ↦ (none, t) ]

  abbrev entries_of : Bytes → Try (List Bytes)
  entries_of path s = elim (P.recursive_entries s path) [
    | ok es ↦ (some es, s)
    | fail e ↦ (none, s)
  ]

  -- name + "/"
  abbrev pub with_slash : Bytes → Bytes
  with_slash name = name ++ (b'/' ∷ [])

  -- One entry of the first loop, with the directories `local` and `second`, to which the name of each
  -- directory is added.
  unfoldable pub copy_entry : Bytes → Bytes → Bytes → Try (Bytes × Bytes)
  copy_entry path local second s =
      let name = P.filename path in
      if P.is_directory s path
      then (some (local ++ with_slash name, second ++ with_slash name), s)
      else if P.exists s (local ++ name)
      then (do
        or_throw (P.copy_file_overwrite (local ++ name) (second ++ name))
        pure (local, second))
          s
      else (some (local, second), s)

  unfoldable pub copy_entries : List Bytes → Bytes → Bytes → Try (Unit {0})
  unfolding copy_entry
  copy_entries [] local second = pure tt
  copy_entries (path ∷ paths) local second = do
    (local', second') ← copy_entry path local second
    copy_entries paths local' second'

  -- The second loop, which makes the directories of the secondary storage on the local one.
  unfoldable pub create_entries : Manager → List Bytes → Bytes → Try (Unit {0})
  create_entries m [] local s = (some tt, s)
  create_entries m (path ∷ paths) local s =
      let local' =
        (if P.is_directory s path then local ++ with_slash (P.filename path) else local) in
      let (r, t) =
        (if P.is_directory s path
          then or_throw (P.create_directories (local_path m local')) s
          else pure tt s) in
      elim r [ none ↦ (none, t) | some u ↦ create_entries m paths local' t ]

  -- fs::rename with its error code, where the new name was no directory of the secondary storage.
  abbrev rename_second : Bool → Bytes → Bytes → Try Error
  rename_second false old new s = (some cbb_success, s)
  rename_second true old new s =
      let (r, t) = P.fs_rename old new s in
      elim r [ ok n ↦ (some cbb_success, t) | fail e ↦ (some (neg 1), t) ]

  -- What Rename does of a directory between the two calls of the exporter.
  unfoldable pub move_directory : Manager → Bytes → Bytes → Try Error
  unfolding copy_entries create_entries
  move_directory m old_path new_path s =
      let target = local_path m old_path in
      let new_second = secondary_path m new_path in
      let is_rename = not (P.exists s new_second && P.is_directory s new_second) in
      let second = (if is_rename then secondary_path m old_path else new_second) in
      (do
        entries ← entries_of target
        copy_entries entries (with_slash target) (with_slash second)
        or_throw (P.remove_all target)
        error ← rename_second is_rename (secondary_path m old_path) new_second
        or_throw (P.create_directories (local_path m (with_slash new_path)))
        made ← entries_of new_second
        create_entries m made (with_slash new_path)
        pure error)
        s

  unfoldable pub rename_directory : ℕ → Bytes → Bytes → Handler P Error
  unfolding unregister_all move_directory research_local_files
  rename_directory fuel old_path new_path = after_lock unregister_all (λ v.
      let (r, s) = move_directory v.md_manager old_path new_path v.fs in
      let w : Server P = record v { fs = s } in
      elim r [
        | none ↦ (error_reply, w)
        | some error ↦
            after_lock (research_local_files P fuel w.md_manager w.fs) (λ u. (result error, u)) w
      ])

  unfoldable pub rename : ℕ → Bytes → Bytes → Handler P Error
  unfolding rename_directory rename_file
  rename fuel old_path new_path v =
      let target = local_path v.md_manager old_path in
      if P.exists v.fs target && P.is_directory v.fs target
      then rename_directory fuel old_path new_path v
      else rename_file P old_path new_path v

  -- The directory of the local storage, with the mode of the one it stands for.
  unfoldable pub make_local : Bytes → Bytes → State → State
  make_local tmp fname s =
      if P.exists s tmp
      then s
      else elim (P.lstat s fname) [ fail e ↦ s | ok st ↦ (P.mkdir tmp st.st_mode s).1 ]

  -- One entry of DuplicateDirSecondaryToLocal; `none` where the search does not end.
  unfoldable pub duplicate_entry :
      (Bytes → State → Option State) → Manager → Bytes → Bytes → State → Option State
  unfolding make_local
  duplicate_entry search m path name s =
      let fname = join path name in
      let tmp = local_path m [] ++ drop (length (secondary_path m [])) fname in
      if P.is_directory s fname && not (is_dot name)
      then search fname (make_local tmp fname s)
      else some s

  unfoldable pub duplicate_entries :
      (Bytes → State → Option State) → Manager → Bytes → List Dirent → State → Option State
  unfolding duplicate_entry
  duplicate_entries search m path [] s = some s
  duplicate_entries search m path (ent ∷ rest) s =
      elim (duplicate_entry search m path ent.d_name s) [
        | none ↦ none
        | some t ↦ duplicate_entries search m path rest t
      ]

  unfoldable pub duplicate_dir_secondary_to_local : ℕ → Manager → Bytes → State → Option State
  unfolding duplicate_entries
  duplicate_dir_secondary_to_local zero m path s = none
  duplicate_dir_secondary_to_local (suc fuel) m path s = elim (P.read_dir s path (pos 0)) [
    | fail e ↦ some s
    | ok entries ↦ duplicate_entries (duplicate_dir_secondary_to_local fuel m) m path entries s
  ]

  -- The constructor of BurstBuffer: `none` where it does not return.
  unfoldable pub start : ℕ → Bytes → Bytes → State → Option (Server P)
  unfolding duplicate_dir_secondary_to_local Search.create
  start fuel local_root secondary_root s =
      let m : Manager = record {
        table = [];
        local_storage_root_path = local_root;
        secondary_storage_root_path = secondary_root;
      } in
      elim (duplicate_dir_secondary_to_local fuel m secondary_root s) [
        | none ↦ none
        | some t ↦ elim (Search.create P fuel m t) [
          | returned x ↦ some (record { md_manager = m; lf_exporter = x; fs = t })
          | threw x ↦ none
          | blocked ↦ none
        ]
      ]
