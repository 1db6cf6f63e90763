-- ===== src/Common/VirtualExt.antt =====
-- The names of virtual links in src/common/common.h: what is appended is found and taken off.
use cbb.Prelude.{
  ◌≡◌, true, false, none, some, arith, ◌++◌, length, drop-append_end, take-length-append,
}
use mathlib.Core.List.{append-nil}
use cbb.Text.{Bytes, find, contains, remove_at}
use cbb.Text.Find.{Lacks, find-append}
use cbb.Common.{
  virtual_symlink_ext, virtual_link_ext, create_virtual_symlink, is_virtual_symlink,
  create_virtual_link, is_virtual_link, remove_virtual_ext, bytes,
}

abbrev symlink_rest : Bytes
symlink_rest = bytes "870A7545-5F58-453A-A685-1C9A3A17272C_symlink"

abbrev link_rest : Bytes
link_rest = bytes "2257FC83-FA8A-430F-AB47-9105B352793D_link"

symlink_rest-Lacks : Lacks b'.' symlink_rest
symlink_rest-Lacks = omega arith

link_rest-Lacks : Lacks b'.' link_rest
link_rest-Lacks = omega arith

-- A path carries no virtual extension.
abbrev pub IsPlain : Bytes → Type 0
IsPlain path = (is_virtual_symlink path ≡ false) × (is_virtual_link path ≡ false)

find_of_not_contains : (s t : Bytes) → contains s t ≡ false → find s t ≡ none
unfolding contains
find_of_not_contains s t h = ground arith

remove_at-append : (p s : Bytes) → remove_at (length p) (length s) (p ++ s) ≡ p
unfolding remove_at
remove_at-append p s = rw (take-length-append p s, drop-append_end p s) (append-nil p)

find_symlink_in_symlink :
    (p : Bytes)
    → is_virtual_symlink p ≡ false
    → find virtual_symlink_ext (p ++ virtual_symlink_ext) ≡ some (length p)
unfolding is_virtual_symlink find
find_symlink_in_symlink p h = ground (
  arith,
  find-append b'.' symlink_rest p symlink_rest symlink_rest-Lacks
      (find_of_not_contains virtual_symlink_ext p h),
)

find_symlink_in_link :
    (p : Bytes)
    → is_virtual_symlink p ≡ false
    → find virtual_symlink_ext (p ++ virtual_link_ext) ≡ none
unfolding is_virtual_symlink find
find_symlink_in_link p h =
    find-append b'.' symlink_rest p link_rest symlink_rest-Lacks
      (find_of_not_contains virtual_symlink_ext p h)

find_link_in_link :
    (p : Bytes)
    → is_virtual_link p ≡ false
    → find virtual_link_ext (p ++ virtual_link_ext) ≡ some (length p)
unfolding is_virtual_link find
find_link_in_link p h = ground (
  arith,
  find-append b'.' link_rest p link_rest link_rest-Lacks
      (find_of_not_contains virtual_link_ext p h),
)

-- For a path that carries no virtual extension, the name of its virtual symlink is recognised as
-- one and gives the path back, and the name of its virtual link is recognised as a link, not as a
-- symlink, and gives the path back.
pub remove_virtual_ext-create :
    (path : Bytes)
    → IsPlain path
    → (is_virtual_symlink (create_virtual_symlink path) ≡ true)
      × (remove_virtual_ext (create_virtual_symlink path) ≡ path)
      × (is_virtual_symlink (create_virtual_link path) ≡ false)
      × (is_virtual_link (create_virtual_link path) ≡ true)
      × (remove_virtual_ext (create_virtual_link path) ≡ path)
unfolding is_virtual_symlink is_virtual_link create_virtual_symlink create_virtual_link
    remove_virtual_ext
remove_virtual_ext-create path plain = ground (
  arith,
  find_symlink_in_symlink path plain.0,
  find_symlink_in_link path plain.0,
  find_link_in_link path plain.1,
  remove_at-append path virtual_symlink_ext,
  remove_at-append path virtual_link_ext,
)
