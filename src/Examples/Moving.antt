-- ===== src/Examples/Moving.antt =====
-- A server of files in memory with a directory `d`, which has two directories and a file in the second.
use cbb.Prelude.{◌≡◌, ◌||◌, Bool, none, refl, arith, ◌∷◌, [], if◌then◌else◌}
use cbb.Common.{bytes, ok, fail}
use cbb.Text.{Bytes, eqb, is_prefix}
use cbb.StdMap.{Map, lookup}
use cbb.Text.Find.{eqb_iff}
use cbb.Posix.{Posix}
use cbb.Posix.Memory.{Disk, MemoryFile, memory, text_at}
use cbb.Server.{Server}
use cbb.Server.Directories.{rename}
use cbb.Server.Moving.{is_below, RemovesTrees, rename_loses}
use cbb.Examples.System.{server, disk}

-- The files that are not below a path.
without : Bytes → Map MemoryFile → Map MemoryFile
without p [] = []
without p ((q, f) ∷ files) =
    let rest = without p files in if is_below p q then rest else (q, f) ∷ rest

abbrev is_dir : Bytes → Bool
is_dir p =
    eqb p (bytes "l/d") || eqb p (bytes "l/d/a") || eqb p (bytes "l/d/b") || eqb p (bytes "r/e")

abbrev trees : Posix
trees = record memory {
  exists = λ d p. is_dir p || memory.exists d p;
  is_directory = λ d p. is_dir p;
  remove_all = λ p d. (ok 1, record d { files = without p d.files });
  recursive_entries = λ d p.
      if eqb p (bytes "l/d")
      then ok (bytes "l/d/a" ∷ bytes "l/d/b" ∷ bytes "l/d/b/x" ∷ [])
      else fail 1;
  filename = λ p.
      if eqb p (bytes "l/d/a")
      then bytes "a"
      else if eqb p (bytes "l/d/b")
      then bytes "b"
      else bytes "x";
}

lookup-without :
    (p q : Bytes) (files : Map MemoryFile)
    → lookup q (without p files) ≡ (if is_below p q then none else lookup q files)
unfolding lookup without
lookup-without p q [] = ground arith
lookup-without p q ((r, f) ∷ files) = ground (arith, lookup-without p q files, eqb_iff q r)

trees-RemovesTrees : RemovesTrees trees text_at
trees-RemovesTrees = record {
  content-remove_all = λ s t p q n h. ground (arith, lookup-without p q s.files);
  content-create_directories = λ s p q. refl;
}

abbrev disk_with_trees : Disk
disk_with_trees = record disk {
  files = (bytes "l/d/b/x", record { text = bytes "data"; time = 5 }) ∷ [];
}

abbrev server_with_trees : Server trees
server_with_trees = record {
  md_manager = server.md_manager;
  lf_exporter = server.lf_exporter;
  fs = disk_with_trees;
}

rename_loses_example :
    let r = rename trees 3 (bytes "d") (bytes "e") server_with_trees in
    (text_at r.1.fs (bytes "l/d/b/x") ≡ none) × (text_at r.1.fs (bytes "r/e/b/x") ≡ none)
unfolding eqb cbb.Manager.local_path cbb.Manager.secondary_path lookup without is_prefix
rename_loses_example =
    rename_loses trees text_at trees-RemovesTrees 3 (bytes "d") (bytes "e") (bytes "l/d/a")
      (bytes "l/d/b") (bytes "l/d/b/x") (bytes "r/e/b/x") server_with_trees
      (record disk_with_trees { files = [] }) 1 refl refl refl refl refl refl refl refl refl refl
      refl refl refl
