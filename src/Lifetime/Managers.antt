-- ===== src/Lifetime/Managers.antt =====
-- What the handlers of src/cbb/burst_buffer.cc do to the manager of descriptors.
use cbb.Client.{Method}
use cbb.Prelude.{arith, ◌≡◌, ◌⊎◌, ℕ}
use cbb.Text.{Bytes}
use cbb.Posix.{Posix}
use cbb.Manager
use cbb.Manager.{Manager}
use cbb.Server.{Server}
use cbb.Server.Directories
use cbb.Server.Files
use cbb.Server.Names

-- Any method.
abbrev pub Every : Method → Type 0
Every m = Unit

module _ (P : Posix) where
  -- Unlink leaves the manager, or does what Unregister does.
  pub unlink-md_manager :
      (a : Bytes) (v : Server P)
      → ((Names.unlink P a v).1.md_manager ≡ v.md_manager)
        ⊎ ((Names.unlink P a v).1.md_manager ≡ (Manager.unregister P a v.md_manager v.fs).0)
  unfolding Names.unlink
  unlink-md_manager a v = ground arith

  rename_directory-md_manager :
      (fuel : ℕ) (a b : Bytes) (v : Server P)
      → (Directories.rename_directory P fuel a b v).1.md_manager ≡ v.md_manager
  unfolding Directories.rename_directory
  rename_directory-md_manager fuel a b v = ground arith

  rename_file-md_manager :
      (a b : Bytes) (v : Server P) → (Names.rename_file P a b v).1.md_manager ≡ v.md_manager
  unfolding Names.rename_file
  rename_file-md_manager a b v = ground arith

  pub rename-md_manager :
      (fuel : ℕ) (a b : Bytes) (v : Server P)
      → (Directories.rename P fuel a b v).1.md_manager ≡ v.md_manager
  unfolding Directories.rename
  rename-md_manager fuel a b v =
      ground (arith, rename_directory-md_manager fuel a b v, rename_file-md_manager a b v)

  -- Open does what the manager does, or waits for a lock.
  pub open_file-md_manager :
      (a : Bytes) (b : ℕ) (v : Server P)
      → ((Files.open_file P a b v).1.md_manager ≡ v.md_manager)
        ⊎ ((Files.open_file P a b v).1.md_manager ≡ (Manager.open_file P a b v.md_manager v.fs).1)
  unfolding Files.open_file Files.open_registered
  open_file-md_manager a b v = ground arith

  pub create-md_manager :
      (a : Bytes) (b c : ℕ) (v : Server P)
      → ((Files.create P a b c v).1.md_manager ≡ v.md_manager)
        ⊎ ((Files.create P a b c v).1.md_manager ≡ (Manager.create P a b c v.md_manager v.fs).1)
  unfolding Files.create
  create-md_manager a b c v = ground arith

  pub release-md_manager :
      (a : Bytes) (b : ℕ) (v : Server P)
      → (Files.release P a b v).1.md_manager ≡ (Manager.close P a b v.md_manager v.fs).1
  unfolding Files.release
  release-md_manager a b v = ground arith

  pub local_file_export-md_manager :
      (v : Server P) → (Files.local_file_export P v).1.md_manager ≡ v.md_manager
  unfolding Files.local_file_export
  local_file_export-md_manager v = ground arith
