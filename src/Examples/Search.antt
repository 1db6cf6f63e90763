-- ===== src/Examples/Search.antt =====
-- The search of the local storage, a virtual symlink, and the names of attributes, on files in
-- memory.
use cbb.Prelude.{◌≡◌, pos, false, [], ◌∷◌, ◌++◌, some, none, if◌then◌else◌, arith, refl, true}
use Prim.Native.Nat.{bit_or}
use cbb.Text.{Bytes, eqb}
use cbb.Common.{bytes, ok, fail, FileStat, virtual_symlink_ext}
use cbb.StdMap.{lookup}
use cbb.Posix.{Posix}
use cbb.Posix.Memory.{memory, Disk}
use cbb.Manager.{Manager, local_path}
use cbb.Exporter.{Exporter, returned}
use cbb.Exporter.Search.{research_local_files}
use cbb.Exporter.Found.{
  Entries, end, entry, file, dir, other, is_file, time_of, research_local_files_finds,
}
use cbb.Server.{Server, result}
use cbb.Server.Names.{symlink}
use cbb.Server.Attributes.{get_attr}
use cbb.Server.Virtual.{get_attr-symlink}
use cbb.Server.XAttrs.{list_xattr, list_xattr_first}

abbrev roots : Manager
roots = record {
  table = [];
  local_storage_root_path = bytes "l";
  secondary_storage_root_path = bytes "r";
}

-- A file, and a directory with another one.
abbrev disk : Disk
disk = record {
  files =
      (bytes "l/f", record { text = bytes "new"; time = 5 })
      ∷ (bytes "l/d/g", record { text = bytes "old"; time = 6 })
      ∷ (bytes "l//f", record { text = bytes "new"; time = 5 })
      ∷ (bytes "l//d/g", record { text = bytes "old"; time = 6 })
      ∷ [];
  clock = 7;
  next = 3;
  full = false;
  opened = [];
}

abbrev storage : Posix
storage = record memory {
  is_directory = λ s p. if eqb p (bytes "l//.") then true else eqb p (bytes "l//d");
  read_dir = λ s p offset.
      if eqb p (bytes "l/")
      then ok (
          record { d_ino = 1; d_type = 4; d_name = bytes "." }
          ∷ record { d_ino = 2; d_type = 4; d_name = bytes "d" }
          ∷ record { d_ino = 3; d_type = 8; d_name = bytes "f" }
          ∷ [])
      else if eqb p (bytes "l//d")
      then ok (record { d_ino = 4; d_type = 8; d_name = bytes "g" } ∷ [])
      else fail 1;
}

abbrev tree : Entries
tree =
    entry (bytes ".") other
      (entry (bytes "d") (dir (entry (bytes "g") file end)) (entry (bytes "f") file end))

abbrev exporter : Exporter
exporter = record { local_files = (bytes "gone", 1) ∷ []; locked = false }

research_local_files_finds_example :
    (y : Exporter) × (research_local_files storage 2 roots disk exporter ≡ returned y)
    × (y.locked ≡ false)
    × ((q : Bytes)
        → lookup q y.local_files
          ≡ (if is_file [] tree q then time_of storage roots disk q else none))
unfolding local_path lookup eqb cbb.Exporter.Found.Shows cbb.Exporter.Found.depth
research_local_files_finds_example =
    research_local_files_finds storage roots disk tree 2
      (record { d_ino = 1; d_type = 4; d_name = bytes "." }
        ∷ record { d_ino = 2; d_type = 4; d_name = bytes "d" }
        ∷ record { d_ino = 3; d_type = 8; d_name = bytes "f" }
        ∷ [])
      exporter refl
      (
        refl,
        (refl, refl),
        (
          refl,
          (
            refl,
            refl,
            (record { d_ino = 4; d_type = 8; d_name = bytes "g" } ∷ [], refl, (refl, refl, tt)),
          ),
          (refl, refl, tt),
        ),
      )
      (omega arith) refl

abbrev stat : FileStat
stat = record {
  st_dev = 0;
  st_ino = 0;
  st_mode = 0o644;
  st_nlink = 1;
  st_uid = 0;
  st_gid = 0;
  st_rdev = 0;
  st_size = 6;
  st_blksize = 0;
  st_blocks = 0;
  st_atim = record { tv_sec = pos 0; tv_nsec = pos 0 };
  st_mtim = record { tv_sec = pos 0; tv_nsec = pos 0 };
  st_ctim = record { tv_sec = pos 0; tv_nsec = pos 0 };
}

-- Files with attributes: the mode, and the names of two more.
abbrev described : Posix
described = record memory {
  lstat = λ s p. ok stat;
  llistxattr = λ s p n. ok (8, bytes "u.a" ++ 0 ∷ (bytes "u.b" ++ 0 ∷ []));
}

abbrev server : Server described
server = record { md_manager = roots; lf_exporter = exporter; fs = disk }

abbrev virtual_name : Bytes
virtual_name = bytes "s" ++ virtual_symlink_ext

get_attr-symlink_example :
    let w = (symlink described (bytes "f") virtual_name server).1 in
    ((symlink described (bytes "f") virtual_name server).0 ≡ result (pos 0))
    × (get_attr described virtual_name w
        ≡ (result (pos 0, some (record stat { st_mode = bit_or 0o644 0o120000 }), bytes "f"), w))
unfolding cbb.Common.is_virtual_symlink cbb.Common.OneLine.write_one_line local_path
    cbb.StdMap.lookup cbb.StdMap.assign cbb.Text.eqb cbb.Text.lt_bytes
get_attr-symlink_example =
    get_attr-symlink described (bytes "f") virtual_name server stat refl (ground arith)
      (ground arith) refl refl refl

list_xattr_first_example :
    list_xattr described (bytes "f") [] 64 server ≡ (result (8, bytes "u.a"), server)
unfolding cbb.Server.XAttrs.terminated
list_xattr_first_example =
    list_xattr_first described (bytes "f") [] (bytes "u.a") (bytes "u.b" ∷ []) 64 8 server
      (ground arith) refl
