-- ===== src/Exporter/Search.antt =====
-- The search of src/cbb/local_file_exporter.cc for the files of the local storage: SearchLocalFiles,
-- and ReSearchLocalFiles and Create, which call it. `fuel` bounds the depth of the directories; where
-- it runs out, the search does not end.
use cbb.Prelude.{
  ℕ, zero, suc, Bool, false, not, ◌&&◌, ◌||◌, pos, List, [], ◌∷◌, ◌++◌, if◌then◌else◌, length, drop,
}
use cbb.Text.{Bytes, eqb}
use cbb.Common.{ok, fail}
use cbb.Posix.{Posix, Dirent}
use cbb.Manager.{Manager, local_path}
use cbb.Exporter.{Exporter, Outcome, returned, threw, blocked, register, unregister_all}

-- strcmp(name, ".") == 0 || strcmp(name, "..") == 0
abbrev pub is_dot : Bytes → Bool
is_dot name = eqb name (b'.' ∷ []) || eqb name (b'.' ∷ b'.' ∷ [])

-- path + "/" + name
abbrev pub join : Bytes → Bytes → Bytes
join path name = path ++ (b'/' ∷ name)

module _ (P : Posix) where
  open P use {State}

  -- One entry of a directory; `search` is the search below a directory.
  unfoldable pub search_entry :
      (Bytes → Exporter → Outcome Exporter)
      → Manager
      → State
      → Bytes
      → Bytes
      → Exporter
      → Outcome Exporter
  search_entry search m s path name x =
      let fname = join path name in
      if P.is_regular_file s fname
      then elim (register P m (drop (length (local_path m [])) fname) x s) [
        | returned (y, done) ↦ returned y
        | threw (y, done) ↦ threw y
        | blocked ↦ blocked
      ]
      else if P.is_directory s fname && not (is_dot name)
      then search fname x
      else returned x

  -- The loop over readdir.
  unfoldable pub search_entries :
      (Bytes → Exporter → Outcome Exporter)
      → Manager
      → State
      → Bytes
      → List Dirent
      → Exporter
      → Outcome Exporter
  unfolding search_entry
  search_entries search m s path [] x = returned x
  search_entries search m s path (ent ∷ rest) x = elim (search_entry search m s path ent.d_name x) [
    | returned y ↦ search_entries search m s path rest y
    | threw y ↦ threw y
    | blocked ↦ blocked
  ]

  unfoldable pub search_local_files : ℕ → Manager → State → Bytes → Exporter → Outcome Exporter
  unfolding search_entries
  search_local_files zero m s path x = blocked
  search_local_files (suc fuel) m s path x = elim (P.read_dir s path (pos 0)) [
    | fail e ↦ returned x
    | ok entries ↦ search_entries (search_local_files fuel m s) m s path entries x
  ]

  unfoldable pub research_local_files : ℕ → Manager → State → Exporter → Outcome Exporter
  unfolding unregister_all search_local_files
  research_local_files fuel m s x = elim (unregister_all x) [
    | returned y ↦ search_local_files fuel m s (local_path m []) y
    | threw y ↦ threw y
    | blocked ↦ blocked
  ]

  -- Create, up to the start of the thread.
  unfoldable pub create : ℕ → Manager → State → Outcome Exporter
  unfolding search_local_files
  create fuel m s =
      search_local_files fuel m s (local_path m []) (record { local_files = []; locked = false })
