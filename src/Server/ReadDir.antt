-- ===== src/Server/ReadDir.antt =====
-- ReadDir of src/cbb/burst_buffer.cc: the names of one or both storages, with virtual links shown
-- under the names that they stand for.
use cbb.Prelude.{negsuc, ℕ, ◌*◌, ◌^◌, ℤ, pos, neg, List, [], ◌∷◌, none, some, if◌then◌else◌}
use cbb.Text.{Bytes}
use cbb.Common.{
  Error, ok, fail, is_virtual_symlink, is_virtual_link, remove_virtual_ext, ReadDirType, dir_local,
  dir_secondary, dir_all,
}
use cbb.StdMap.{Map, lookup, assign}
use cbb.Posix.{Posix, Dirent}
use cbb.Manager.{local_path, secondary_path}
use cbb.Server.{result, Handler}
use Prim.Native.Nat.{bit_or}

-- The attributes that ReadDirInternal sets.
pub record Listed : Type 0 where
  pub st_ino : ℕ
  pub st_mode : ℕ

-- DT_LNK
abbrev dt_lnk : ℕ
dt_lnk = 10

-- The name under which an entry is shown, and its attributes.
unfoldable pub shown : Dirent → Bytes × Listed
unfolding is_virtual_symlink is_virtual_link remove_virtual_ext
shown de =
    if is_virtual_symlink de.d_name
    then (
      remove_virtual_ext de.d_name,
      record { st_ino = de.d_ino; st_mode = bit_or de.d_type dt_lnk * 2 ^ 12 },
    )
    else if is_virtual_link de.d_name
    then (remove_virtual_ext de.d_name, record { st_ino = de.d_ino; st_mode = de.d_type * 2 ^ 12 })
    else (de.d_name, record { st_ino = de.d_ino; st_mode = de.d_type * 2 ^ 12 })

-- One entry: the first of a name stays.
unfoldable pub add_entry : Dirent → Map Listed → Map Listed
unfolding shown lookup assign
add_entry de file_stats =
    let (d_name, file_stat) = shown de in
    elim (lookup d_name file_stats) [
      | none ↦ assign d_name file_stat file_stats
      | some old ↦ file_stats
    ]

-- The loop over readdir.
unfoldable pub add_entries : List Dirent → Map Listed → Map Listed
unfolding add_entry
add_entries [] file_stats = file_stats
add_entries (de ∷ rest) file_stats = add_entries rest (add_entry de file_stats)

module _ (P : Posix) where
  open P use {State}

  -- ReadDirInternal
  unfoldable pub read_dir_internal : State → Bytes → ℤ → Map Listed → Error × Map Listed
  unfolding add_entries
  read_dir_internal s path offset file_stats = elim (P.read_dir s path offset) [
    | fail e ↦ (negsuc e, file_stats)
    | ok entries ↦ elim (P.closedir s path) [
      | ok n ↦ (pos n, add_entries entries file_stats)
      | fail e ↦ (neg 1, [])
    ]
  ]

  unfoldable pub read_dir : Bytes → ℤ → ReadDirType → Handler P (Error × Map Listed)
  unfolding read_dir_internal
  read_dir path offset dir_local v =
      (result (read_dir_internal v.fs (local_path v.md_manager path) offset []), v)
  read_dir path offset dir_secondary v =
      (result (read_dir_internal v.fs (secondary_path v.md_manager path) offset []), v)
  read_dir path offset dir_all v =
      let (error, file_stats) = read_dir_internal v.fs (local_path v.md_manager path) offset [] in
      (result (read_dir_internal v.fs (secondary_path v.md_manager path) offset file_stats), v)
