-- ===== src/Examples/Storage.antt =====
-- The handlers of src/cbb/burst_buffer.cc and the exporter on files in memory.
use cbb.Server.Renaming.{rename_file_loses}
use cbb.Exporter.Export.{check_local_files_exports}
use cbb.Server.ReadDir.{read_dir, Listed, shown}
use cbb.Server.Exporting.{open_file_unregisters}
use cbb.Server.Listing.{read_dir_all, first_shown}
use cbb.Exporter.CheckFile.{IsDisjoint, is_current}
use cbb.Text.{Bytes, eqb}
use cbb.StdMap.{Map, assign, lookup}
use cbb.Posix.Memory.{memory-IsLawful, text_at, memory, Disk}
use cbb.Posix.{Posix}
use cbb.Common.{dir_all, ok, bytes}
use cbb.Prelude.{
  negsuc, ◌^◌, ◌*◌, refl, none, negsuc, arith, some, pos, false, ◌≡◌, ◌∷◌, if◌then◌else◌, [],
}
use cbb.Manager.{secondary_path, local_path, Manager}
use cbb.Server.{result, Server}
use cbb.Exporter.{returned, check_local_files, Exporter}
use cbb.Server.Names.{rename_file}
use cbb.Server.Files.{open_file}

abbrev roots : Manager
roots = record {
  table = [];
  local_storage_root_path = bytes "l";
  secondary_storage_root_path = bytes "r";
}

roots-IsDisjoint : IsDisjoint roots
unfolding local_path secondary_path
roots-IsDisjoint p q h = ground arith

-- A local file `f` that is not exported yet, and another file under the name `g` on both storages.
abbrev disk : Disk
disk = record {
  files =
      (bytes "l/f", record { text = bytes "new"; time = 5 })
      ∷ (bytes "l/g", record { text = bytes "old"; time = 2 })
      ∷ (bytes "r/g", record { text = bytes "old"; time = 3 })
      ∷ [];
  clock = 7;
  next = 3;
  full = false;
  opened = [];
}

-- The same with an older copy of `f` on the secondary storage.
abbrev disk_behind : Disk
disk_behind = record disk {
  files = assign (bytes "r/f") (record { text = bytes "old"; time = 4 }) disk.files;
}

abbrev exporter : Exporter
exporter = record { local_files = (bytes "f", 5) ∷ (bytes "gone", 1) ∷ []; locked = false }

abbrev exported : Exporter
exported = record { local_files = (bytes "f", 5) ∷ []; locked = false }

abbrev disk_after : Disk
disk_after = record {
  files =
      (bytes "l/f", record { text = bytes "new"; time = 5 })
      ∷ (bytes "l/g", record { text = bytes "old"; time = 2 })
      ∷ (bytes "r/f", record { text = bytes "new"; time = 7 })
      ∷ (bytes "r/g", record { text = bytes "old"; time = 3 })
      ∷ [];
  clock = 7;
  next = 3;
  full = false;
  opened = [];
}

abbrev server : Server memory
server = record { md_manager = roots; lf_exporter = exporter; fs = disk }

check_local_files_run :
    check_local_files memory roots exporter disk_behind ≡ returned (exported, disk_after)
unfolding check_local_files local_path secondary_path lookup assign eqb cbb.Text.lt_bytes
check_local_files_run = refl

check_local_files_exports_example :
    (text_at disk_after (secondary_path roots (bytes "f")) ≡ some (bytes "new"))
    × (text_at disk_after (local_path roots (bytes "f")) ≡ some (bytes "new"))
    × ((g : Bytes)
        → lookup g exported.local_files ≡ (
            if memory.exists disk_behind (local_path roots g)
            then lookup g exporter.local_files
            else none))
unfolding check_local_files local_path secondary_path lookup assign eqb cbb.Text.lt_bytes is_current
check_local_files_exports_example =
    check_local_files_exports memory text_at memory-IsLawful roots roots-IsDisjoint exporter
      exported disk_behind disk_after (bytes "f") 5 refl refl refl

rename_file_loses_example :
    let r = rename_file memory (bytes "f") (bytes "g") server in
    (r.0 ≡ result (negsuc 0))
    × (text_at r.1.fs (local_path roots (bytes "f")) ≡ none)
    × (text_at r.1.fs (secondary_path roots (bytes "f")) ≡ none)
    × (text_at r.1.fs (secondary_path roots (bytes "g"))
        ≡ text_at disk (secondary_path roots (bytes "g")))
unfolding local_path secondary_path lookup eqb
rename_file_loses_example =
    rename_file_loses memory text_at memory-IsLawful (bytes "f") (bytes "g") (bytes "new") server
      roots-IsDisjoint refl refl refl refl refl (ground arith)

open_file_unregisters_example :
    lookup (bytes "f") (open_file memory (bytes "f") 2 server).1.lf_exporter.local_files ≡ some 5
unfolding lookup eqb
open_file_unregisters_example = open_file_unregisters memory (bytes "f") (bytes "f") 2 server refl

-- The same files, with two directories: the name `a` is in both.
abbrev listed_memory : Posix
listed_memory = record memory {
  read_dir = λ d p offset.
      if eqb p (bytes "l/d")
      then ok (record { d_ino = 11; d_type = 8; d_name = bytes "a" } ∷ [])
      else ok (
          record { d_ino = 21; d_type = 8; d_name = bytes "a" }
          ∷ record { d_ino = 22; d_type = 4; d_name = bytes "b" }
          ∷ []);
}

abbrev listed_server : Server listed_memory
listed_server = record { md_manager = roots; lf_exporter = exporter; fs = disk }

read_dir_all_example :
    (listing : Map Listed) × (read_dir listed_memory (bytes "d") (pos 0) dir_all listed_server
      ≡ (result (pos 0, listing), listed_server))
    × (lookup (bytes "a") listing ≡ some (record { st_ino = 11; st_mode = 8 * 2 ^ 12 }))
unfolding local_path secondary_path eqb first_shown shown
read_dir_all_example =
    read_dir_all listed_memory (bytes "d") (pos 0) listed_server
      (record { d_ino = 11; d_type = 8; d_name = bytes "a" } ∷ [])
      (record { d_ino = 21; d_type = 8; d_name = bytes "a" }
        ∷ record { d_ino = 22; d_type = 4; d_name = bytes "b" }
        ∷ [])
      (bytes "a") refl refl refl refl
