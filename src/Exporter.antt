-- ===== src/Exporter.antt =====
-- src/cbb/local_file_exporter.cc: the table of closed local files and their copying to the
-- secondary storage. The mutex is not released when an exception leaves a locked region; a later
-- lock then never returns.
pub mod CheckFile
pub mod Sweeps
pub mod Search
pub mod Found
pub mod Export
use cbb.Prelude.{ℕ, Bool, true, false, List, [], ◌∷◌, Option, none, some, if◌then◌else◌, leb}
use cbb.Text.{Bytes}
use cbb.Common.{SysResult, ok, fail}
use cbb.StdMap.{Map, assign, erase}
use cbb.Posix.{Posix}
use cbb.Manager.{Manager, local_path, secondary_path}

pub record Exporter : Type 0 where
  pub local_files : Map ℕ
  pub locked : Bool

-- How a call that locks the mutex ends: it returns, an exception leaves it, or it waits for ever.
pub data Outcome {ℓ} (A : Type ℓ) : Type ℓ where
  returned : A → Outcome A
  threw : A → Outcome A
  blocked : Outcome A

-- mutex_.Lock(); local_files_ = f(local_files_); mutex_.Unlock();
abbrev pub with_lock : (Map ℕ → Map ℕ) → Exporter → Outcome Exporter
with_lock f x = if x.locked then blocked else returned (record x { local_files = f x.local_files })

unfoldable pub unregister : Bytes → Exporter → Outcome Exporter
unfolding erase
unregister path x = with_lock (erase path) x

unfoldable pub unregister_all : Exporter → Outcome Exporter
unregister_all x = with_lock (λ _. []) x

-- What the loop of CheckLocalFiles finds of one file: its local copy is gone, or the file is kept,
-- or a call throws.
pub data Checked {ℓ} (S : Type ℓ) : Type ℓ where
  gone : Checked S
  kept : S → Checked S
  thrown : S → Checked S

-- The names to erase, the state, and whether an exception left the loop.
pub record Sweep (S : Type 0) : Type 0 where
  pub erase_filename : List Bytes
  pub state : S
  pub is_thrown : Bool

-- The loop `local_files_.erase(filename)` over the names found.
unfoldable pub erase_all : List Bytes → Map ℕ → Map ℕ
unfolding erase
erase_all [] files = files
erase_all (filename ∷ names) files = erase_all names (erase filename files)

module _ (P : Posix) where
  open P use {State}

  -- Register: false when the file is not there or its time cannot be read.
  unfoldable pub register : Manager → Bytes → Exporter → State → Outcome (Exporter × Bool)
  unfolding assign
  register m path x s =
      let filename = local_path m path in
      if P.exists s filename
      then elim (P.last_write_time s filename) [
        | fail e ↦ returned (x, false)
        | ok time ↦ elim (with_lock (assign path time) x) [
          | returned x' ↦ returned (x', true)
          | threw x' ↦ threw (x', true)
          | blocked ↦ blocked
        ]
      ]
      else returned (x, false)

  -- copy_file without an error code throws when it fails.
  abbrev copy_or_throw : Bytes → Bytes → State → Checked State
  copy_or_throw source destination s =
      let (r, t) = P.copy_file_overwrite source destination s in
      elim r [ ok n ↦ kept t | fail e ↦ thrown t ]

  -- The body of the loop in CheckLocalFiles.
  unfoldable pub check_file : Manager → Bytes → State → Checked State
  check_file m filename s =
      let source = local_path m filename in
      let destination = secondary_path m filename in
      if P.exists s source
      then (if P.exists s destination
          then elim (P.last_write_time s source) [
            | fail e ↦ thrown s
            | ok last_update_src ↦ elim (P.last_write_time s destination) [
              | fail e ↦ thrown s
              | ok last_update_dst ↦
                  if leb last_update_src last_update_dst
                  then kept s
                  else copy_or_throw source destination s
            ]
          ]
          else copy_or_throw source destination s)
      else gone

  -- The loop in CheckLocalFiles.
  unfoldable pub check_files : Manager → Map ℕ → State → Sweep State
  unfolding check_file
  check_files m [] s = record { erase_filename = []; state = s; is_thrown = false }
  check_files m ((filename, mod_time) ∷ files) s = elim (check_file m filename s) [
    | gone ↦
        let rest = check_files m files s in
        record rest { erase_filename = filename ∷ rest.erase_filename }
    | kept t ↦ check_files m files t
    | thrown t ↦ record { erase_filename = []; state = t; is_thrown = true }
  ]

  -- CheckLocalFiles
  unfoldable pub check_local_files : Manager → Exporter → State → Outcome (Exporter × State)
  unfolding check_files erase_all
  check_local_files m x s =
      let sweep = check_files m x.local_files s in
      if x.locked
      then blocked
      else if sweep.is_thrown
      then threw (record x { locked = true }, sweep.state)
      else returned
          (record x { local_files = erase_all sweep.erase_filename x.local_files }, sweep.state)
