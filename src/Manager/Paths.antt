-- ===== src/Manager/Paths.antt =====
-- The paths of src/cbb/meta_data_manager.h.
use cbb.Prelude.{◌≡◌, refl, true, [], ◌∷◌, ◌++◌, arith, ◌==◌, length, drop, if◌then◌else◌}
use cbb.Text.{Bytes, is_prefix, find, contains}
use cbb.Manager.{Manager, local_path, remove_storage_path, slash}

contains_of_prefix : (s t : Bytes) → is_prefix s t ≡ true → contains s t ≡ true
unfolding contains find is_prefix
contains_of_prefix s [] h = ground arith
contains_of_prefix s (y ∷ t) h = ground arith

-- The path without its first slash, if it begins with one.
abbrev pub relative : Bytes → Bytes
relative [] = []
relative (c ∷ path) = if c == b'/' then path else c ∷ path

slash-relative : (path : Bytes) → slash path ++ path ≡ b'/' ∷ relative path
slash-relative [] = refl
slash-relative (c ∷ path) = ground arith

prefix_of_root :
    (root rest : Bytes) → is_prefix (root ++ (b'/' ∷ [])) (root ++ (b'/' ∷ rest)) ≡ true
unfolding is_prefix
prefix_of_root [] rest = refl
prefix_of_root (c ∷ root) rest = ground (arith, prefix_of_root root rest)

drop_root : (root rest : Bytes) → drop (length (root ++ (b'/' ∷ []))) (root ++ (b'/' ∷ rest)) ≡ rest
drop_root [] rest = refl
drop_root (c ∷ root) rest = drop_root root rest

-- A local path is turned back into the path of the file system, without its first slash.
pub remove_storage_path-local_path :
    (m : Manager) (path : Bytes) → remove_storage_path m (local_path m path) ≡ relative path
unfolding remove_storage_path
remove_storage_path-local_path m path =
    let root = m.local_storage_root_path in
    rw (slash-relative path) (
      ground (
        arith,
        contains_of_prefix (root ++ (b'/' ∷ [])) (root ++ (b'/' ∷ relative path))
            (prefix_of_root root (relative path)),
        drop_root root (relative path),
      ))
