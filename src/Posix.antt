-- ===== src/Posix.antt =====
-- The operating system and boost::filesystem, which the sources call: a parameter of every module
-- that stands on it. A call that changes something takes the state and gives the new one.
pub mod Memory
pub mod Data
use cbb.Prelude.{ℕ, Bool, true, false, ℤ, ◌≡◌, ◌⊎◌, List, Option, none, some, if◌then◌else◌}
use cbb.Text.{Bytes, eqb}
use cbb.Common.{SysResult, ok, fail, FileStat, StatVfs}

abbrev pub Call : Type 0 → Type 0
Call State = State → SysResult ℕ × State

-- `struct timeval`
pub record TimeVal : Type 0 where
  pub tv_sec : ℤ
  pub tv_usec : ℤ

-- The fields of `struct dirent` that are read.
pub record Dirent : Type 0 where
  pub d_ino : ℕ
  pub d_type : ℕ
  pub d_name : Bytes

pub record Posix : Type 1 where
  pub State : Type 0
  -- boost::filesystem
  pub exists : State → Bytes → Bool
  pub is_directory : State → Bytes → Bool
  pub is_regular_file : State → Bytes → Bool
  pub last_write_time : State → Bytes → SysResult ℕ
  pub copy_file : Bytes → Bytes → Call State
  pub copy_file_overwrite : Bytes → Bytes → Call State
  pub fs_rename : Bytes → Bytes → Call State
  pub remove_all : Bytes → Call State
  pub create_directories : Bytes → Call State
  -- the paths that a recursive_directory_iterator gives, and the last part of a path
  pub recursive_entries : State → Bytes → SysResult (List Bytes)
  pub filename : Bytes → Bytes
  pub fs_remove : Bytes → Call State
  -- what a stream reads of a whole file, or `none` if it cannot be opened; and its writing
  pub read_text : State → Bytes → Option Bytes
  pub write_text : Bytes → Bytes → State → State
  -- opendir, seekdir and readdir; closedir is apart
  pub read_dir : State → Bytes → ℤ → SysResult (List Dirent)
  pub closedir : State → Bytes → SysResult ℕ
  -- system calls
  pub statvfs : State → Bytes → SysResult StatVfs
  pub lstat : State → Bytes → SysResult FileStat
  pub fstat : State → ℕ → SysResult FileStat
  pub access : State → Bytes → ℕ → SysResult ℕ
  pub readlink : State → Bytes → ℕ → SysResult Bytes
  pub rename : Bytes → Bytes → Call State
  pub chmod : Bytes → ℕ → Call State
  pub lchown : Bytes → ℕ → ℕ → Call State
  pub truncate : Bytes → ℤ → Call State
  pub ftruncate : ℕ → ℤ → Call State
  pub utimes : Bytes → TimeVal → TimeVal → Call State
  pub mkdir : Bytes → ℕ → Call State
  pub unlink : Bytes → Call State
  pub rmdir : Bytes → Call State
  pub symlink : Bytes → Bytes → Call State
  pub link : Bytes → Bytes → Call State
  pub open_file_mode : Bytes → ℕ → ℕ → Call State
  pub open_file : Bytes → ℕ → Call State
  pub pread : ℕ → ℕ → ℤ → State → SysResult Bytes
  pub pwrite : ℕ → Bytes → ℤ → Call State
  pub fsync : ℕ → Call State
  pub fdatasync : ℕ → Call State
  pub close : ℕ → Call State
  pub sync : State → State
  pub dup : ℕ → Call State
  pub lsetxattr : Bytes → Bytes → Bytes → ℕ → ℕ → Call State
  -- the length that is returned, and what is written to the buffer
  pub lgetxattr : State → Bytes → Bytes → ℕ → SysResult (ℕ × Bytes)
  pub llistxattr : State → Bytes → ℕ → SysResult (ℕ × Bytes)
  pub lremovexattr : Bytes → Bytes → Call State
  pub flock : ℕ → ℤ → Call State
  -- whether the zone of msgpack has the memory that a reply asks for
  pub zone_malloc : State → ℕ → Bool

-- What is relied on of regular files. `content` is the data of the file at a path, if one is there.
pub record IsLawful (P : Posix) (content : P.State → Bytes → Option Bytes) : Type 0 where
  -- boost::filesystem::remove takes the file away and touches no other.
  pub content-fs_remove :
      (s : P.State) (p q : Bytes)
      → content (P.fs_remove p s).1 q ≡ (if eqb q p then none else content s q)
  pub exists-fs_remove :
      (s : P.State) (p q : Bytes)
      → P.exists (P.fs_remove p s).1 q ≡ (if eqb q p then false else P.exists s q)
  -- Without `overwrite_if_exists` a copy onto an existing path fails and changes nothing.
  pub copy_file_existing :
      (s : P.State) (p q : Bytes)
      → P.exists s q ≡ true
      → (e : ℕ) × (P.copy_file p q s ≡ (fail e, s))
  -- A copy that succeeds makes the target equal to the source and touches no other file.
  pub content-copy_file_overwrite :
      (s t : P.State) (p q : Bytes) (n : ℕ)
      → P.copy_file_overwrite p q s ≡ (ok n, t)
      → (r : Bytes) → content t r ≡ (if eqb r q then content s p else content s r)
  pub exists-copy_file_overwrite :
      (s t : P.State) (p q : Bytes) (n : ℕ)
      → P.copy_file_overwrite p q s ≡ (ok n, t)
      → (r : Bytes) → P.exists t r ≡ (if eqb r q then true else P.exists s r)
  -- Such a copy sets the time of no path but the target.
  pub last_write_time-copy_file_overwrite :
      (s t : P.State) (p q : Bytes) (n : ℕ)
      → P.copy_file_overwrite p q s ≡ (ok n, t)
      → (r : Bytes) → eqb r q ≡ false
      → P.last_write_time t r ≡ P.last_write_time s r
