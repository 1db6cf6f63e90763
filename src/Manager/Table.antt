-- ===== src/Manager/Table.antt =====
-- The table of src/cbb/meta_data_manager.cc as a set of pairs of a path and a descriptor.
use cbb.Posix.{Posix}
use cbb.Common.{fail, ok, SysResult, Error}
use cbb.Prelude.{
  ◌⊎◌, none, negsuc, pos, some, Option, ℕ, ◌≡◌, refl, Bool, true, false, not, ◌&&◌, ◌||◌, List, [],
  ◌∷◌, arith, ◌==◌, Option-cases, inl, inr,
}
use cbb.Text.{Bytes, eqb}
use cbb.Text.Find.{eqb_iff}
use cbb.StdMap.{lookup, set_insert, set_erase, set_has, is_empty}
use cbb.StdMap.Laws.{lookup-assign, lookup-erase, set_has-set_insert, set_has-set_erase}
use cbb.Manager.{
  open_local, local_path, copy_secondary_to_local, unregister, open_file, file_flush, create, close,
  Manager, descriptors, register, unregister_fd,
}

-- Whether a descriptor is registered under a path.
abbrev pub holds : Manager → Bytes → ℕ → Bool
holds m path fd = set_has fd (descriptors m.table path)

holds-register :
    (path q : Bytes) (fd x : ℕ) (m : Manager)
    → holds (register path fd m) q x ≡ ((eqb q path && x == fd) || holds m q x)
unfolding register
holds-register path q fd x m = ground (
  arith,
  eqb_iff q path,
  lookup-assign path q (set_insert fd (descriptors m.table path)) m.table,
  set_has-set_insert fd x (descriptors m.table path),
)

set_has_of_empty : (xs : List ℕ) (x : ℕ) → is_empty xs ≡ true → set_has x xs ≡ false
unfolding set_has
set_has_of_empty [] x h = refl
set_has_of_empty (y ∷ ys) x h = ground arith

holds-unregister_fd :
    (path q : Bytes) (fd x : ℕ) (m : Manager)
    → holds (unregister_fd path fd m) q x ≡ (not (eqb q path && x == fd) && holds m q x)
unfolding unregister_fd set_has
holds-unregister_fd path q fd x m = elim (Option-cases (lookup path m.table)) [
  | inl e ↦ rw (e, unregister_fd) (ground (arith, eqb_iff q path))
  | inr (fds, e) ↦
      rw (e, unregister_fd)
        (ground (
          arith,
          eqb_iff q path,
          lookup-assign path q (set_erase fd fds) m.table,
          lookup-erase path q m.table,
          set_has-set_erase fd x fds,
          set_has_of_empty (set_erase fd fds) x,
        ))
]

pub SysResult-cases : (r : SysResult ℕ) → ((n : ℕ) × (r ≡ ok n)) ⊎ ((e : ℕ) × (r ≡ fail e))
SysResult-cases (ok n) = inl (n, refl)
SysResult-cases (fail e) = inr (e, refl)

pub local_path-unregister_fd :
    (path q : Bytes) (fd : ℕ) (m : Manager)
    → local_path (unregister_fd path fd m) q ≡ local_path m q
unfolding local_path unregister_fd
local_path-unregister_fd path q fd m = elim (Option-cases (lookup path m.table)) [
  | inl e ↦ rw (e, unregister_fd)
  | inr (fds, e) ↦ rw (e, unregister_fd) (ground arith)
]

-- Whether a result is the descriptor `x`.
abbrev pub is_fd : ℕ → Error → Bool
is_fd x (pos fd) = x == fd
is_fd x (negsuc e) = false

abbrev pub is_fd_of : ℕ → Option Error → Bool
is_fd_of x none = false
is_fd_of x (some error) = is_fd x error

module _ (P : Posix) where
  pub holds-unregister :
      (path q : Bytes) (x : ℕ) (m : Manager) (s : P.State)
      → holds (unregister P path m s).0 q x ≡ (not (eqb q path) && holds m q x)
  unfolding unregister set_has
  holds-unregister path q x m s = elim (Option-cases (lookup path m.table)) [
    | inl e ↦ rw (e, unregister) (ground (arith, eqb_iff q path))
    | inr (fds, e) ↦ rw (e, unregister) (ground (arith, lookup-erase path q m.table))
  ]

  -- After Create the table holds what it held, and also the descriptor that is returned, if one is:
  -- a failure registers nothing.
  pub holds-create :
      (path q : Bytes) (flags mode x : ℕ) (m : Manager) (s : P.State)
      → let r = create P path flags mode m s in
        holds r.1 q x ≡ ((eqb q path && is_fd x r.0) || holds m q x)
  unfolding create
  holds-create path q flags mode x m s =
      elim (SysResult-cases (P.open_file_mode (local_path m path) flags mode s).0) [
        | inl (fd, e) ↦ rw (e, create) (holds-register path q fd x m)
        | inr (n, e) ↦ rw (e, create) (ground arith)
      ]

  holds-open_local :
      (path q : Bytes) (flags x : ℕ) (m : Manager) (s : P.State)
      → let r = open_local P path flags m s in
        holds r.1 q x ≡ ((eqb q path && is_fd_of x r.0) || holds m q x)
  unfolding open_local
  holds-open_local path q flags x m s =
      elim (SysResult-cases (P.open_file (local_path m path) flags s).0) [
        | inl (fd, e) ↦ rw (e, open_local) (holds-register path q fd x m)
        | inr (n, e) ↦ rw (e, open_local) (ground arith)
      ]

  -- After Open the table holds what it held, and also the descriptor that is returned, if one is: a
  -- failure, or an exception from the copy to the local storage, registers nothing.
  pub holds-open_file :
      (path q : Bytes) (flags x : ℕ) (m : Manager) (s : P.State)
      → let r = open_file P path flags m s in
        holds r.1 q x ≡ ((eqb q path && is_fd_of x r.0) || holds m q x)
  unfolding open_file
  holds-open_file path q flags x m s = ground (
    arith,
    holds-open_local path q flags x m s,
    holds-open_local path q flags x m (copy_secondary_to_local P path m s).1,
  )

  -- Close takes just its descriptor from its path, whatever the system call answers.
  pub holds-close :
      (path q : Bytes) (fd x : ℕ) (m : Manager) (s : P.State)
      → holds (close P path fd m s).1 q x ≡ (not (eqb q path && x == fd) && holds m q x)
  unfolding close
  holds-close path q fd x m s = holds-unregister_fd path q fd x m

  -- FileFlush answers 0 and takes every descriptor from its path, and those of other paths stay.
  pub holds-file_flush :
      (path q : Bytes) (x : ℕ) (m : Manager) (s : P.State)
      → ((file_flush P path m s).0 ≡ pos 0)
        × (holds (file_flush P path m s).1 q x ≡ (not (eqb q path) && holds m q x))
  unfolding file_flush
  holds-file_flush path q x m s = (refl, holds-unregister path q x m s)
