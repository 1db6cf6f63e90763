-- ===== src/Server/XAttrs.antt =====
-- StatFs, FSyncDir, GetXAttr and ListXAttr of src/cbb/burst_buffer.cc. The buffer of an attribute
-- is one byte longer than asked for and starts as zeros; the reply is its text up to the first zero
-- byte.
use cbb.Prelude.{
  ℕ, ◌-◌, ◌^◌, ◌≡◌, refl, ℤ, List, [], ◌∷◌, ◌++◌, ◌==◌, if◌then◌else◌, arith, Option, none, some,
  neg,
}
use cbb.Text.{Bytes}
use cbb.Text.Find.{Lacks}
use cbb.Common.{Error, cbb_success, SysResult, ok, fail, StatVfs}
use cbb.Posix.{Posix}
use cbb.Manager
use cbb.Server.{Server, result, Handler}

-- std::string(buf)
unfoldable pub c_string : Bytes → Bytes
c_string [] = []
c_string (c ∷ buf) = let rest = c_string buf in if c == 0 then [] else c ∷ rest

-- `size_t ret`: -1 becomes the largest value.
abbrev pub size_result : SysResult (ℕ × Bytes) → ℕ × Bytes
size_result (ok (n, buf)) = (n, c_string buf)
size_result (fail e) = (2 ^ 64 - 1, [])

module _ (P : Posix) where
  unfoldable pub stat_fs : Bytes → Handler P (Error × Option StatVfs)
  unfolding Manager.target_path
  stat_fs path v = elim (P.statvfs v.fs (Manager.target_path P v.md_manager v.fs path)) [
    | ok st ↦ (result (cbb_success, some st), v)
    | fail e ↦ (result (neg 1, none), v)
  ]

  unfoldable pub fsync_dir : Bytes → ℤ → Handler P Error
  fsync_dir path datasync v = (result cbb_success, record v { fs = P.sync (P.sync v.fs) })

  unfoldable pub get_xattr : Bytes → Bytes → Bytes → ℕ → Handler P (ℕ × Bytes)
  unfolding Manager.target_path c_string
  get_xattr path name value size v =
      let target = Manager.target_path P v.md_manager v.fs path in
      (result (size_result (P.lgetxattr v.fs target name size)), v)

  unfoldable pub list_xattr : Bytes → Bytes → ℕ → Handler P (ℕ × Bytes)
  unfolding Manager.target_path c_string
  list_xattr path list size v =
      let target = Manager.target_path P v.md_manager v.fs path in
      (result (size_result (P.llistxattr v.fs target size)), v)

c_string-append : (text rest : Bytes) → Lacks 0 text → c_string (text ++ 0 ∷ rest) ≡ text
unfolding c_string
c_string-append [] rest lacks = refl
c_string-append (c ∷ text) rest lacks = ground (arith, c_string-append text rest lacks.1)

-- What llistxattr writes: each name with a zero byte after it.
unfoldable pub terminated : List Bytes → Bytes
terminated [] = []
terminated (name ∷ names) = name ++ 0 ∷ terminated names

module _ (P : Posix) where
  -- When the system lists the names of a file's attributes, each ended by a zero byte, ListXAttr
  -- answers the length of them all, and the first name only.
  pub list_xattr_first :
      (path list name : Bytes) (names : List Bytes) (size n : ℕ) (v : Server P)
      → Lacks 0 name
      → P.llistxattr v.fs (Manager.target_path P v.md_manager v.fs path) size
        ≡ ok (n, terminated (name ∷ names))
      → list_xattr P path list size v ≡ (result (n, name), v)
  unfolding list_xattr terminated
  list_xattr_first path list name names size n v lacks e =
      rw (e, list_xattr) (ground (arith, c_string-append name (terminated names) lacks))
