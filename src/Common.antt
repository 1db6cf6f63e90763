-- ===== src/Common.antt =====
-- src/common/common.h and src/common/error.h: error values, file attributes, the names of virtual
-- links, and the reading types of a directory.
pub mod VirtualExt
pub mod OneLine
use cbb.Prelude.{
  arith, ◌≡◌, ◌^◌, ltb, ◌<◌, ◌%◌, if◌then◌else◌, negsuc, ℕ, suc, ◌+◌, ◌-◌, Bool, true, false, ℤ,
  pos, neg, Option, none, some, List, [], ◌∷◌, ◌++◌, map, length,
}
use cbb.Text.{Bytes, find, contains, remove_at}
use Prim.Native.Char.{code}
use Prim.Native.String.{String}

-- The bytes of an ASCII literal.
abbrev pub bytes : String → Bytes
bytes String.[] = []
bytes (String.◌∷◌ c s) = code c ∷ bytes s

-- CBB_CONFIG, where the build does not set it.
abbrev pub cbb_config : Bytes
cbb_config = bytes "/etc/cbb.conf"

-- `Error` is an int: 0, a positive `CBBErrors`, or -errno.
abbrev pub Error : Type 0
Error = ℤ

abbrev pub cbb_success : Error
cbb_success = pos 0

abbrev pub cbb_unknown_error : Error
cbb_unknown_error = pos 1

-- What a system call answers: its result, or -1 with `errno` set. A failure sets a positive `errno`:
-- `fail e` stands for errno = e + 1.
pub data SysResult {ℓ} (A : Type ℓ) : Type ℓ where
  ok : A → SysResult A
  fail : ℕ → SysResult A

-- The int that the call itself returns.
abbrev pub raw_result : SysResult ℕ → ℤ
raw_result (ok n) = pos n
raw_result (fail e) = neg 1

-- The conversion of an integer to an int, which keeps its lowest 32 bits.
abbrev signed : ℕ → ℤ
signed n = if ltb n (2 ^ 31) then pos n else negsuc (2 ^ 32 - 1 - n)

unfoldable pub to_int32 : ℤ → ℤ
to_int32 (pos n) = signed (n % 2 ^ 32)
to_int32 (negsuc n) = signed (2 ^ 32 - 1 - n % 2 ^ 32)

pub to_int32-small : (n : ℕ) → n < 2 ^ 31 → to_int32 (pos n) ≡ pos n
unfolding to_int32
to_int32-small n h = ground arith

-- errno_to_cbb_error(call): -errno when the call's result is negative, else the result. The calls that
-- it is used on return an int, which the cast to int keeps; perror, which it runs before it reads
-- errno, is taken to leave errno as it is.
abbrev pub errno_to_cbb_error : SysResult ℕ → Error
errno_to_cbb_error (ok n) = pos n
errno_to_cbb_error (fail e) = negsuc e

pub record TimeSpec : Type 0 where
  pub tv_sec : ℤ
  pub tv_nsec : ℤ

pub record FileStat : Type 0 where
  pub st_dev : ℕ
  pub st_ino : ℕ
  pub st_mode : ℕ
  pub st_nlink : ℕ
  pub st_uid : ℕ
  pub st_gid : ℕ
  pub st_rdev : ℕ
  pub st_size : ℕ
  pub st_blksize : ℕ
  pub st_blocks : ℕ
  pub st_atim : TimeSpec
  pub st_mtim : TimeSpec
  pub st_ctim : TimeSpec

-- VIRTUAL_SYMLINK_EXT
abbrev pub virtual_symlink_ext : Bytes
virtual_symlink_ext = bytes ".870A7545-5F58-453A-A685-1C9A3A17272C_symlink"

-- VIRTUAL_LINK_EXT
abbrev pub virtual_link_ext : Bytes
virtual_link_ext = bytes ".2257FC83-FA8A-430F-AB47-9105B352793D_link"

unfoldable pub create_virtual_symlink : Bytes → Bytes
create_virtual_symlink path = path ++ virtual_symlink_ext

unfoldable pub is_virtual_symlink : Bytes → Bool
unfolding contains
is_virtual_symlink path = contains virtual_symlink_ext path

unfoldable pub create_virtual_link : Bytes → Bytes
create_virtual_link path = path ++ virtual_link_ext

unfoldable pub is_virtual_link : Bytes → Bool
unfolding contains
is_virtual_link path = contains virtual_link_ext path

unfoldable pub remove_virtual_ext : Bytes → Bytes
unfolding find remove_at
remove_virtual_ext path = elim (find virtual_symlink_ext path) [
  | some index ↦ remove_at index (length virtual_symlink_ext) path
  | none ↦ elim (find virtual_link_ext path) [
    | some index ↦ remove_at index (length virtual_link_ext) path
    | none ↦ path
  ]
]

-- The fields of `struct StatVfs`.
pub record StatVfs : Type 0 where
  pub f_bsize : ℕ
  pub f_frsize : ℕ
  pub f_blocks : ℕ
  pub f_bfree : ℕ
  pub f_bavail : ℕ
  pub f_files : ℕ
  pub f_ffree : ℕ
  pub f_favail : ℕ
  pub f_fsid : ℕ
  pub f_flag : ℕ
  pub f_namemax : ℕ

-- CBBReadDirType
pub data ReadDirType : Type 0 where
  dir_local dir_secondary dir_all : ReadDirType
