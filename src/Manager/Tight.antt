-- ===== src/Manager/Tight.antt =====
-- No path of the table of src/cbb/meta_data_manager.cc has an empty set of descriptors.
use cbb.Prelude.{none, not, ℕ, ◌≡◌, refl, false, List, [], ◌∷◌, some, arith, Option-cases, inl, inr}
use cbb.Text.{Bytes}
use cbb.StdMap.{lookup, set_insert, set_erase, is_empty}
use cbb.StdMap.Laws.{lookup-assign, lookup-erase}
use cbb.Posix.{Posix}
use cbb.Manager.{
  is_buffered, Manager, descriptors, register, unregister_fd, unregister, create, open_local,
  open_file, copy_secondary_to_local, close, file_flush, local_path,
}
use cbb.Manager.Table.{SysResult-cases}

-- No path of the table has an empty set of descriptors.
abbrev pub IsTight : Manager → Type 0
IsTight m = (path : Bytes) (fds : List ℕ) → lookup path m.table ≡ some fds → is_empty fds ≡ false

pub empty-IsTight : (m : Manager) → m.table ≡ [] → IsTight m
unfolding lookup
empty-IsTight m e path fds h = let none_at : none ≡ some fds = rw (e, lookup) at h in ground arith

set_insert_full : (n : ℕ) (xs : List ℕ) → is_empty (set_insert n xs) ≡ false
unfolding set_insert
set_insert_full n [] = refl
set_insert_full n (x ∷ xs) = ground arith

register-IsTight : (path : Bytes) (fd : ℕ) (m : Manager) → IsTight m → IsTight (register path fd m)
unfolding register
register-IsTight path fd m tight q fds = ground (
  arith,
  lookup-assign path q (set_insert fd (descriptors m.table path)) m.table,
  set_insert_full fd (descriptors m.table path),
  tight q fds,
)

pub unregister_fd-IsTight :
    (path : Bytes) (fd : ℕ) (m : Manager) → IsTight m → IsTight (unregister_fd path fd m)
unfolding unregister_fd
unregister_fd-IsTight path fd m tight q fds = elim (Option-cases (lookup path m.table)) [
  | inl e ↦ rw (e, unregister_fd) (tight q fds)
  | inr (old, e) ↦
      rw (e, unregister_fd)
        (ground (
          arith,
          lookup-assign path q (set_erase fd old) m.table,
          lookup-erase path q m.table,
          tight q fds,
        ))
]

pub is_buffered_of_IsTight :
    (m : Manager) (q : Bytes) → IsTight m → is_buffered m q ≡ not (is_empty (descriptors m.table q))
unfolding is_buffered
is_buffered_of_IsTight m q tight = elim (Option-cases (lookup q m.table)) [
  | inl e ↦ ground (arith, e)
  | inr (fds, e) ↦ let full = tight q fds e in ground (arith, e, full)
]

module _ (P : Posix) where
  pub unregister-IsTight :
      (path : Bytes) (m : Manager) (s : P.State) → IsTight m → IsTight (unregister P path m s).0
  unfolding unregister
  unregister-IsTight path m s tight q fds = elim (Option-cases (lookup path m.table)) [
    | inl e ↦ rw (e, unregister) (tight q fds)
    | inr (old, e) ↦ rw (e, unregister) (ground (arith, lookup-erase path q m.table, tight q fds))
  ]

  pub create-IsTight :
      (path : Bytes) (flags mode : ℕ) (m : Manager) (s : P.State)
      → IsTight m
      → IsTight (create P path flags mode m s).1
  unfolding create
  create-IsTight path flags mode m s tight =
      elim (SysResult-cases (P.open_file_mode (local_path m path) flags mode s).0) [
        | inl (fd, e) ↦ rw (e, create) (register-IsTight path fd m tight)
        | inr (n, e) ↦ rw (e, create) tight
      ]

  open_local-IsTight :
      (path : Bytes) (flags : ℕ) (m : Manager) (s : P.State)
      → IsTight m
      → IsTight (open_local P path flags m s).1
  unfolding open_local
  open_local-IsTight path flags m s tight =
      elim (SysResult-cases (P.open_file (local_path m path) flags s).0) [
        | inl (fd, e) ↦ rw (e, open_local) (register-IsTight path fd m tight)
        | inr (n, e) ↦ rw (e, open_local) tight
      ]

  pub open_file-IsTight :
      (path : Bytes) (flags : ℕ) (m : Manager) (s : P.State)
      → IsTight m
      → IsTight (open_file P path flags m s).1
  unfolding open_file
  open_file-IsTight path flags m s tight q fds = ground (
    arith,
    open_local-IsTight path flags m s tight q fds,
    open_local-IsTight path flags m (copy_secondary_to_local P path m s).1 tight q fds,
    tight q fds,
  )

  -- An operation of the manager that changes its table.
  pub data Operation : Type 0 where
    creating : Bytes → ℕ → ℕ → Operation
    opening : Bytes → ℕ → Operation
    closing : Bytes → ℕ → Operation
    flushing : Bytes → Operation

  -- The table after an operation.
  unfoldable pub run : Operation → Manager → P.State → Manager × P.State
  run (creating path flags mode) m s = let (r, n, t) = create P path flags mode m s in (n, t)
  run (opening path flags) m s = let (r, n, t) = open_file P path flags m s in (n, t)
  run (closing path fd) m s = let (r, n, t) = close P path fd m s in (n, t)
  run (flushing path) m s = let (r, n, t) = file_flush P path m s in (n, t)

  unfoldable pub run_all : List Operation → Manager → P.State → Manager × P.State
  unfolding run
  run_all [] m s = (m, s)
  run_all (op ∷ ops) m s = let (n, t) = run op m s in run_all ops n t

  run-IsTight : (op : Operation) (m : Manager) (s : P.State) → IsTight m → IsTight (run op m s).0
  unfolding run close file_flush
  run-IsTight (creating path flags mode) m s tight = create-IsTight path flags mode m s tight
  run-IsTight (opening path flags) m s tight = open_file-IsTight path flags m s tight
  run-IsTight (closing path fd) m s tight = unregister_fd-IsTight path fd m tight
  run-IsTight (flushing path) m s tight = unregister-IsTight path m s tight

  -- Whatever Create, Open, Close and FileFlush are done in a row, with any results of the system
  -- calls: when no path of the table has an empty set of descriptors, none has one afterwards.
  pub run_all-IsTight :
      (ops : List Operation) (m : Manager) (s : P.State) → IsTight m → IsTight (run_all ops m s).0
  unfolding run_all
  run_all-IsTight [] m s tight = tight
  run_all-IsTight (op ∷ ops) m s tight =
      run_all-IsTight ops (run op m s).0 (run op m s).1 (run-IsTight op m s tight)

  -- From an empty table, after any sequence of Create, Open, Close and FileFlush, with any results of
  -- the system calls, a path is buffered exactly when a descriptor is registered under it.
  pub is_buffered-run_all :
      (ops : List Operation) (m : Manager) (s : P.State) (q : Bytes)
      → m.table ≡ []
      → is_buffered (run_all ops m s).0 q ≡ not (is_empty (descriptors (run_all ops m s).0.table q))
  is_buffered-run_all ops m s q e =
      is_buffered_of_IsTight (run_all ops m s).0 q (run_all-IsTight ops m s (empty-IsTight m e))
