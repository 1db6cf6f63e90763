-- ===== src/Server/Duplicated.antt =====
-- What DuplicateDirSecondaryToLocal of src/cbb/burst_buffer.cc makes, over a description of the
-- directories of the secondary storage as a tree.
pub mod Places
pub mod Makes
pub mod Ends
pub mod Start
use cbb.Text.Find.{eqb_iff}
use cbb.Server.Directories.{
  duplicate_entries, duplicate_entry, duplicate_dir_secondary_to_local, make_local,
}
use cbb.Prelude.{
  ◌≤◌, zero, some, ◌<◌, suc, Option, inr, inl, Bool-cases, arith, refl, drop-length-append, sym,
  length, drop, ◌∙◌, ap, ℕ, ◌≡◌, Bool, true, false, not, ◌&&◌, ◌||◌, pos, List, [], ◌∷◌, ◌++◌,
}
use cbb.Text.{Bytes, eqb}
use mathlib.Core.List.{append_assoc, append-nil}
use cbb.Common.{ok, FileStat}
use cbb.Posix.{Posix, Dirent}
use cbb.Manager.{secondary_path, local_path, Manager}
use cbb.Exporter.Search.{is_dot, join}
use cbb.Exporter.Found.{depth_node, depth, Node, Entries, file, dir, other, end, entry}

-- Whether a path is that of a directory of a tree that stands at a path.
unfoldable mutual
  pub is_dir_node : Bytes → Node → Bytes → Bool
  is_dir_node at file path = false
  is_dir_node at (dir entries) path = eqb path at || is_dir at entries path
  is_dir_node at other path = false

  pub is_dir : Bytes → Entries → Bytes → Bool
  is_dir at end path = false
  is_dir at (entry name node more) path =
      is_dir_node (join at name) node path || is_dir at more path

module _ (P : Posix) where
  -- The directories of a tree are what the system shows below a path.
  unfoldable mutual
    pub HasNode : P.State → Bytes → Bytes → Node → Type 0
    HasNode s fname name file = (P.is_directory s fname && not (is_dot name)) ≡ false
    HasNode s fname name (dir entries) =
        ((P.is_directory s fname && not (is_dot name)) ≡ true)
        × ((st : FileStat) × (P.lstat s fname ≡ ok st))
        × ((ents : List Dirent) × (P.read_dir s fname (pos 0) ≡ ok ents) × Has s fname entries ents)
    HasNode s fname name other = (P.is_directory s fname && not (is_dot name)) ≡ false

    pub Has : P.State → Bytes → Entries → List Dirent → Type 0
    Has s path end [] = Unit {0}
    Has s path end (ent ∷ rest) = ⊥
    Has s path (entry name node more) [] = ⊥
    Has s path (entry name node more) (ent ∷ rest) =
        (ent.d_name ≡ name) × HasNode s (join path name) name node × Has s path more rest

  -- For storages that lie apart: mkdir of a new name in a directory makes a directory and takes none
  -- away, and what is found for the first time afterwards, under whatever spelling, is a directory. A
  -- path is found or not as before, where another spelling of the new name is out of the question:
  -- where `told` holds of the two. On the local storage it changes nothing that is read on the
  -- secondary one.
  pub record MakesDirs (m : Manager) (told : Bytes → Bytes → Bool) : Type 0 where
    pub is_directory-mkdir_new :
        (s : P.State) (path name : Bytes) (mode : ℕ)
        → P.is_directory s path ≡ true
        → P.exists s (join path name) ≡ false
        → P.is_directory (P.mkdir (join path name) mode s).1 (join path name) ≡ true
    pub is_directory-mkdir_kept :
        (s : P.State) (path name q : Bytes) (mode : ℕ)
        → P.is_directory s path ≡ true
        → P.exists s (join path name) ≡ false
        → P.is_directory s q ≡ true
        → P.is_directory (P.mkdir (join path name) mode s).1 q ≡ true
    pub exists-mkdir_found :
        (s : P.State) (path name q : Bytes) (mode : ℕ)
        → P.is_directory s path ≡ true
        → P.exists s (join path name) ≡ false
        → P.exists s q ≡ false
        → P.exists (P.mkdir (join path name) mode s).1 q ≡ true
        → P.is_directory (P.mkdir (join path name) mode s).1 q ≡ true
    pub exists-mkdir :
        (s : P.State) (path name q : Bytes) (mode : ℕ)
        → P.is_directory s path ≡ true
        → P.exists s (join path name) ≡ false
        → told q (join path name) ≡ true
        → P.exists (P.mkdir (join path name) mode s).1 q ≡ (eqb q (join path name) || P.exists s q)
    pub is_directory-mkdir :
        (s : P.State) (path name q : Bytes) (mode : ℕ)
        → P.is_directory s path ≡ true
        → P.exists s (join path name) ≡ false
        → told q (join path name) ≡ true
        → P.is_directory (P.mkdir (join path name) mode s).1 q
          ≡ (eqb q (join path name) || P.is_directory s q)
    pub is_directory_secondary-mkdir :
        (s : P.State) (r q : Bytes) (mode : ℕ)
        → P.is_directory
            (P.mkdir (m.local_storage_root_path ++ r) mode s).1
            (m.secondary_storage_root_path ++ q)
          ≡ P.is_directory s (m.secondary_storage_root_path ++ q)
    pub lstat_secondary-mkdir :
        (s : P.State) (r q : Bytes) (mode : ℕ)
        → P.lstat
            (P.mkdir (m.local_storage_root_path ++ r) mode s).1
            (m.secondary_storage_root_path ++ q)
          ≡ P.lstat s (m.secondary_storage_root_path ++ q)
    pub read_dir_secondary-mkdir :
        (s : P.State) (r q : Bytes) (mode : ℕ)
        → P.read_dir
            (P.mkdir (m.local_storage_root_path ++ r) mode s).1
            (m.secondary_storage_root_path ++ q)
            (pos 0)
          ≡ P.read_dir s (m.secondary_storage_root_path ++ q) (pos 0)
