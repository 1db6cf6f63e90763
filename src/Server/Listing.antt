-- ===== src/Server/Listing.antt =====
-- The names that ReadDir of src/cbb/burst_buffer.cc lists.
use cbb.Prelude.{ℤ, pos, ◌≡◌, refl, List, [], ◌∷◌, Option, none, some, arith, if◌then◌else◌}
use cbb.Text.{Bytes, eqb}
use cbb.Text.Find.{eqb_iff}
use cbb.Common.{ok, dir_all}
use cbb.StdMap.{Map, lookup}
use cbb.StdMap.Laws.{lookup-assign}
use cbb.Posix.{Posix, Dirent}
use cbb.Manager.{local_path, secondary_path}
use cbb.Server.{Server, result}
use cbb.Server.ReadDir.{Listed, shown, add_entry, add_entries, read_dir}

-- The attributes of the first entry that is shown under a name.
unfoldable pub first_shown : Bytes → List Dirent → Option Listed
first_shown q [] = none
first_shown q (de ∷ rest) =
    let more = first_shown q rest in if eqb q (shown de).0 then some (shown de).1 else more

-- The first of two, if there is one.
abbrev pub or_else : Option Listed → Option Listed → Option Listed
or_else (some a) b = some a
or_else none b = b

lookup-add_entry :
    (q : Bytes) (de : Dirent) (m : Map Listed)
    → lookup q (add_entry de m)
      ≡ or_else (lookup q m) (if eqb q (shown de).0 then some (shown de).1 else none)
unfolding add_entry
lookup-add_entry q de m =
    ground (arith, lookup-assign (shown de).0 q (shown de).1 m, eqb_iff q (shown de).0)

lookup-add_entries :
    (q : Bytes) (entries : List Dirent) (m : Map Listed)
    → lookup q (add_entries entries m) ≡ or_else (lookup q m) (first_shown q entries)
unfolding add_entries first_shown
lookup-add_entries q [] m = ground arith
lookup-add_entries q (de ∷ rest) m =
    ground (arith, lookup-add_entries q rest (add_entry de m), lookup-add_entry q de m)

module _ (P : Posix) where
  -- When both directories can be read, a listing of both storages answers success, and it shows a
  -- name exactly when an entry of one of them is shown under it: with the attributes of the first
  -- such entry, the local storage before the secondary one.
  pub read_dir_all :
      (path : Bytes) (offset : ℤ) (v : Server P) (near far : List Dirent) (q : Bytes)
      → P.read_dir v.fs (local_path v.md_manager path) offset ≡ ok near
      → P.closedir v.fs (local_path v.md_manager path) ≡ ok 0
      → P.read_dir v.fs (secondary_path v.md_manager path) offset ≡ ok far
      → P.closedir v.fs (secondary_path v.md_manager path) ≡ ok 0
      → (listing : Map Listed) × (read_dir P path offset dir_all v ≡ (result (pos 0, listing), v))
        × (lookup q listing ≡ or_else (first_shown q near) (first_shown q far))
  unfolding read_dir
  read_dir_all path offset v near far q a b c d = (
    add_entries far (add_entries near []),
    ground arith,
    rw (lookup-add_entries, lookup-add_entries, lookup) refl,
  )
