-- ===== src/Examples/Folders.antt =====
-- Directories in memory: a file whose text is a slash stands for a directory.
use cbb.Prelude.{
  ◌==◌, ◌&&◌, ℕ, ℤ, pos, ◌||◌, List, ◌≡◌, Bool, true, false, [], ◌∷◌, ◌++◌, Option, some, none,
  if◌then◌else◌, arith, refl, Bool-cases, inl, inr,
}
use cbb.Text.{Bytes, eqb}
use cbb.Text.Find.{eqb_iff}
use cbb.Common.{bytes, ok, fail, FileStat}
use cbb.StdMap.{lookup}
use cbb.StdMap.Laws.{lookup-assign}
use cbb.Posix.{Dirent, Posix}
use cbb.Posix.Memory.{memory, Disk, MemoryFile}
use cbb.Manager.{Manager, local_path}
use cbb.Exporter.Search.{join}
use cbb.Exporter.Found.{Shows, depth, Entries, end, entry, file, dir, other}
use cbb.Server.{Server}
use cbb.Settings.{Settings, Tree}
use cbb.Cbb.{main, values, serving}
use cbb.Cbb.Serves.{IsServerFile, main-Starts}
use cbb.Server.Duplicated.Start.{Starts}
use cbb.Server.Directories.{duplicate_dir_secondary_to_local}
use cbb.Server.Duplicated.{is_dir, MakesDirs, Has}
use cbb.Server.Duplicated.Makes.{Makes}
use cbb.Server.Duplicated.Ends.{duplicate_dir_secondary_to_local-Makes}

abbrev stat : FileStat
stat = record {
  st_dev = 0;
  st_ino = 0;
  st_mode = 0o40755;
  st_nlink = 2;
  st_uid = 0;
  st_gid = 0;
  st_rdev = 0;
  st_size = 0;
  st_blksize = 0;
  st_blocks = 0;
  st_atim = record { tv_sec = pos 0; tv_nsec = pos 0 };
  st_mtim = record { tv_sec = pos 0; tv_nsec = pos 0 };
  st_ctim = record { tv_sec = pos 0; tv_nsec = pos 0 };
}

abbrev folder : MemoryFile
folder = record { text = b'/' ∷ []; time = 0 }

abbrev is_folder : Option MemoryFile → Bool
is_folder none = false
is_folder (some f) = eqb f.text (b'/' ∷ [])

abbrev is_file : Option MemoryFile → Bool
is_file none = false
is_file (some f) = true

-- What follows a slash: nothing, where the path ends or another slash comes.
abbrev after_slash : Bytes → Bytes
after_slash [] = []
after_slash (c ∷ path) = if c == b'/' then c ∷ path else b'/' ∷ c ∷ path

-- One spelling of a path: without the slashes that come before a slash or at the end.
abbrev squeeze : Bytes → Bytes
squeeze [] = []
squeeze (c ∷ path) = let rest = squeeze path in if c == b'/' then after_slash rest else c ∷ rest

-- Two paths that are spelled so.
abbrev plain : Bytes → Bytes → Bool
plain q p = eqb (squeeze q) q && eqb (squeeze p) p

abbrev find : Bytes → Disk → Option MemoryFile
find p s = lookup (squeeze p) s.files

abbrev folders : Posix
folders = record memory {
  exists = λ s p. is_file (find p s);
  is_regular_file = λ s p. eqb (squeeze p) (bytes "l/f");
  is_directory = λ s p. is_folder (find p s);
  last_write_time = λ s p. memory.last_write_time s (squeeze p);
  mkdir = λ p mode s. (ok 0, memory.write_text (squeeze p) (b'/' ∷ []) s);
  lstat = λ s p. ok stat;
  read_dir = λ s p offset.
      if eqb (squeeze p) (bytes "r")
      then ok (
          record { d_ino = 1; d_type = 4; d_name = bytes "." }
          ∷ record { d_ino = 2; d_type = 4; d_name = bytes "d" }
          ∷ record { d_ino = 3; d_type = 8; d_name = bytes "f" }
          ∷ [])
      else if eqb (squeeze p) (bytes "r/d")
      then ok (record { d_ino = 4; d_type = 4; d_name = bytes "e" } ∷ [])
      else if eqb (squeeze p) (bytes "l")
      then ok (
          record { d_ino = 5; d_type = 4; d_name = bytes "d" }
          ∷ record { d_ino = 6; d_type = 8; d_name = bytes "f" }
          ∷ [])
      else if eqb (squeeze p) (bytes "r/d/e") || eqb (squeeze p) (bytes "l/d")
      then ok []
      else fail 1;
}

abbrev roots : Manager
roots = record {
  table = [];
  local_storage_root_path = bytes "l";
  secondary_storage_root_path = bytes "r";
}

-- The files after mkdir.
made : Bytes → Disk → Bytes → Option MemoryFile
made p s q =
    if eqb (squeeze q) (squeeze p)
    then some (record { text = b'/' ∷ []; time = s.clock })
    else find q s

find-mkdir : (p q : Bytes) (mode : ℕ) (s : Disk) → find q (folders.mkdir p mode s).1 ≡ made p s q
unfolding made
find-mkdir p q mode s =
    lookup-assign (squeeze p) (squeeze q) (record { text = b'/' ∷ []; time = s.clock }) s.files

folders-MakesDirs : MakesDirs folders roots plain
unfolding made eqb
folders-MakesDirs = record {
  is_directory-mkdir_new = λ s path name mode d new.
      let p = join path name in
      rw (find-mkdir p p mode s, (eqb_iff (squeeze p) (squeeze p)).1 refl) refl;
  is_directory-mkdir_kept =
      λ s path name q mode d new h. rw (find-mkdir (join path name) q mode s) (ground (arith, h));
  exists-mkdir_found = λ s path name q mode d new h x.
      let found = rw (find-mkdir (join path name) q mode s) at x in
      rw (find-mkdir (join path name) q mode s) (ground (arith, h, found));
  exists-mkdir = λ s path name q mode d new apart.
      let p = join path name in
      rw (find-mkdir p q mode s) (
        ground (
          arith,
          apart,
          eqb_iff (squeeze q) (squeeze p),
          eqb_iff (squeeze q) q,
          eqb_iff (squeeze p) p,
          eqb_iff q p,
        ));
  is_directory-mkdir = λ s path name q mode d new apart.
      let p = join path name in
      rw (find-mkdir p q mode s) (
        ground (
          arith,
          apart,
          eqb_iff (squeeze q) (squeeze p),
          eqb_iff (squeeze q) q,
          eqb_iff (squeeze p) p,
          eqb_iff q p,
        ));
  is_directory_secondary-mkdir =
      λ s r q mode. rw (find-mkdir (bytes "l" ++ r) (bytes "r" ++ q) mode s) refl;
  lstat_secondary-mkdir = λ s r q mode. refl;
  read_dir_secondary-mkdir = λ s r q mode. refl;
}

-- A directory below a directory, and a file, on the secondary storage; the first directory is on the
-- local storage already.
abbrev disk : Disk
disk = record {
  files =
      (bytes "l", folder)
      ∷ (bytes "l/d", folder)
      ∷ (bytes "r", folder)
      ∷ (bytes "r/d", folder)
      ∷ (bytes "r/d/e", folder)
      ∷ (bytes "r/f", record { text = bytes "new"; time = 5 })
      ∷ [];
  clock = 7;
  next = 3;
  full = false;
  opened = [];
}

abbrev tree : Entries
tree =
    entry (bytes ".") other
      (entry (bytes "d") (dir (entry (bytes "e") (dir end) end)) (entry (bytes "f") file end))

-- On the local storage there is nothing else under these names.
disk_fits :
    (q : Bytes)
    → is_dir (bytes "l") tree q ≡ true
    → folders.exists disk q ≡ true
    → folders.is_directory disk q ≡ true
unfolding is_dir lookup eqb
disk_fits q made there = elim (Bool-cases (eqb q (bytes "l/d"))) [
  | inl e ↦ rw ((eqb_iff q (bytes "l/d")).0 e) refl
  | inr n ↦ elim (Bool-cases (eqb q (bytes "l/d/e"))) [
    | inl e ↦ let found = rw ((eqb_iff q (bytes "l/d/e")).0 e) at there in ground arith
    | inr o ↦ ground (arith, made, n, o)
  ]
]

duplicate_dir_secondary_to_local-Makes_example :
    (t : Disk) × (duplicate_dir_secondary_to_local folders 3 roots (bytes "r") disk ≡ some t)
    × Makes folders roots plain (is_dir (bytes "l") tree) disk t
unfolding eqb lookup Has depth
duplicate_dir_secondary_to_local-Makes_example =
    duplicate_dir_secondary_to_local-Makes folders roots plain folders-MakesDirs tree 3
      (record { d_ino = 1; d_type = 4; d_name = bytes "." }
        ∷ record { d_ino = 2; d_type = 4; d_name = bytes "d" }
        ∷ record { d_ino = 3; d_type = 8; d_name = bytes "f" }
        ∷ [])
      disk refl
      (
        refl,
        refl,
        (
          refl,
          (
            refl,
            (stat, refl),
            (
              record { d_ino = 4; d_type = 4; d_name = bytes "e" } ∷ [],
              refl,
              (refl, (refl, (stat, refl), ([], refl, tt)), tt),
            ),
          ),
          (refl, refl, tt),
        ),
      )
      (omega arith) refl disk_fits

abbrev local_tree : Entries
local_tree = entry (bytes "d") (dir end) (entry (bytes "f") file end)

local_shown :
    (t : Disk)
    → duplicate_dir_secondary_to_local folders 3 roots (bytes "r") disk ≡ some t
    → Makes folders roots plain (is_dir (bytes "l") tree) disk t
    → (found : List Dirent) × (folders.read_dir t (local_path roots []) (pos 0) ≡ ok found)
      × Shows folders t (local_path roots []) local_tree found
unfolding eqb lookup local_path Shows
local_shown t done makes = (
  record { d_ino = 5; d_type = 4; d_name = bytes "d" }
      ∷ record { d_ino = 6; d_type = 8; d_name = bytes "f" }
      ∷ [],
  refl,
  (
    refl,
    (refl, ground (arith, makes.is_directory_kept (bytes "l//d") refl), ([], refl, tt)),
    (refl, refl, tt),
  ),
)

abbrev settings : Settings
settings = record {
  server_host = bytes "a";
  server_port = pos 9090;
  server_thread = pos 1;
  server_local_strage_path = bytes "l";
  server_secondary_storage_path = bytes "r";
  server_interval_time = pos 1;
  client_hosts = [];
  client_port = pos 0;
}

abbrev ini : Tree
ini key =
    if eqb key (bytes "Server.host")
    then some (bytes "a")
    else if eqb key (bytes "Server.port")
    then some (bytes "9090")
    else if eqb key (bytes "Server.thread")
    then some (bytes "1")
    else if eqb key (bytes "Server.local_strage_path")
    then some (bytes "l")
    else some (bytes "r")

abbrev to_int : Bytes → Option ℤ
to_int text =
    if eqb text (bytes "9090")
    then some (pos 9090)
    else if eqb text (bytes "1")
    then some (pos 1)
    else none

abbrev read_ini : Bytes → Option Tree
read_ini path = if eqb path (bytes "a.conf") then some ini else none

ini-IsServerFile : IsServerFile to_int ini settings
unfolding eqb
ini-IsServerFile = record {
  host = refl;
  port_text = bytes "9090";
  port = refl;
  port_int = refl;
  thread_text = bytes "1";
  thread = refl;
  thread_int = refl;
  local = refl;
  secondary = refl;
}

main-Starts_example :
    (v : Server folders) × (main folders 3 to_int read_ini
        (bytes "usage")
        (values (some (bytes "a.conf")) false)
        settings
        disk
      ≡ serving v (bytes "a") (pos 9090) (pos 1))
    × Starts folders (bytes "l") (bytes "r") plain folders-MakesDirs tree local_tree disk v
unfolding eqb lookup Has depth
main-Starts_example =
    main-Starts folders 3 to_int read_ini (some (bytes "a.conf")) ini settings settings
      ini-IsServerFile plain folders-MakesDirs tree local_tree
      (record { d_ino = 1; d_type = 4; d_name = bytes "." }
        ∷ record { d_ino = 2; d_type = 4; d_name = bytes "d" }
        ∷ record { d_ino = 3; d_type = 8; d_name = bytes "f" }
        ∷ [])
      (bytes "usage") (bytes "a.conf") disk refl refl refl
      (
        refl,
        refl,
        (
          refl,
          (
            refl,
            (stat, refl),
            (
              record { d_ino = 4; d_type = 4; d_name = bytes "e" } ∷ [],
              refl,
              (refl, (refl, (stat, refl), ([], refl, tt)), tt),
            ),
          ),
          (refl, refl, tt),
        ),
      )
      (omega arith) (omega arith) refl disk_fits local_shown
