-- ===== src/Lifetime/Table.antt =====
-- The table and the roots of src/cbb/meta_data_manager.h over the life of a server.
use cbb.Prelude.{ℕ, ◌≡◌, refl, not, [], inl, inr, arith}
use cbb.Text.{Bytes}
use cbb.StdMap.{is_empty}
use cbb.Posix.{Posix}
use cbb.Manager
use cbb.Manager.{
  Manager, descriptors, is_buffered, unregister_fd, unregister, create, open_local, open_file,
  file_flush,
}
use cbb.Manager.Tight.{
  IsTight, empty-IsTight, unregister_fd-IsTight, unregister-IsTight, create-IsTight,
  open_file-IsTight, is_buffered_of_IsTight,
}
use cbb.Server.{Server}
use cbb.Dispatch.Frame.{MovesTables, dispatch-Moves}
use cbb.Dispatch.Handlers.{Junk}
use cbb.Lifetime.{Log, Reach, here, serve, watch, outside}
use cbb.Lifetime.Managers.{
  Every, unlink-md_manager, rename-md_manager, open_file-md_manager, create-md_manager,
  release-md_manager, local_file_export-md_manager,
}

-- The roots are the same, and no empty set of descriptors appears.
record Keeps (m n : Manager) : Type 0 where
  tight : IsTight m → IsTight n
  local_root : n.local_storage_root_path ≡ m.local_storage_root_path
  secondary_root : n.secondary_storage_root_path ≡ m.secondary_storage_root_path

Keeps-refl : (m : Manager) → Keeps m m
Keeps-refl m = record { tight = λ t. t; local_root = refl; secondary_root = refl }

Keeps-of_eq : (m n : Manager) → n ≡ m → Keeps m n
Keeps-of_eq m n e = rw e (Keeps-refl m)

unregister_fd-Keeps : (path : Bytes) (fd : ℕ) (m : Manager) → Keeps m (unregister_fd path fd m)
unfolding unregister_fd
unregister_fd-Keeps path fd m = record {
  tight = unregister_fd-IsTight path fd m;
  local_root = ground arith;
  secondary_root = ground arith;
}

module _ (P : Posix) where
  unregister-Keeps : (path : Bytes) (m : Manager) (s : P.State) → Keeps m (unregister P path m s).0
  unfolding unregister
  unregister-Keeps path m s = record {
    tight = unregister-IsTight P path m s;
    local_root = ground arith;
    secondary_root = ground arith;
  }

  create-Keeps :
      (path : Bytes) (flags mode : ℕ) (m : Manager) (s : P.State)
      → Keeps m (create P path flags mode m s).1
  unfolding create Manager.register
  create-Keeps path flags mode m s = record {
    tight = create-IsTight P path flags mode m s;
    local_root = ground arith;
    secondary_root = ground arith;
  }

  open_file-Keeps :
      (path : Bytes) (flags : ℕ) (m : Manager) (s : P.State)
      → Keeps m (open_file P path flags m s).1
  unfolding open_file open_local Manager.register
  open_file-Keeps path flags m s = record {
    tight = open_file-IsTight P path flags m s;
    local_root = ground arith;
    secondary_root = ground arith;
  }

  module _ (fuel : ℕ) (junk : Junk) where
    abbrev ServerKeeps : Server P → Server P → Type 0
    ServerKeeps v w = Keeps v.md_manager w.md_manager

    handlers-Keeps : MovesTables P fuel junk Every ServerKeeps
    unfolding Manager.close cbb.Server.Files.file_flush file_flush
    handlers-Keeps = record {
      fs = λ v s. Keeps-refl v.md_manager;
      unlink = λ ok a v. elim (unlink-md_manager P a v) [
        | inl e ↦ rw e (Keeps-refl v.md_manager)
        | inr e ↦ rw e (unregister-Keeps a v.md_manager v.fs)
      ];
      rename = λ ok a b v. rw (rename-md_manager P fuel a b v) (Keeps-refl v.md_manager);
      open_file = λ ok a b v. elim (open_file-md_manager P a b v) [
        | inl e ↦ rw e (Keeps-refl v.md_manager)
        | inr e ↦ rw e (open_file-Keeps a b v.md_manager v.fs)
      ];
      create = λ ok a b c v. elim (create-md_manager P a b c v) [
        | inl e ↦ rw e (Keeps-refl v.md_manager)
        | inr e ↦ rw e (create-Keeps a b c v.md_manager v.fs)
      ];
      release = λ ok a b v. rw (release-md_manager P a b v) (unregister_fd-Keeps a b v.md_manager);
      file_flush = λ ok a v. unregister-Keeps a v.md_manager v.fs;
      local_file_export = λ ok v. rw (local_file_export-md_manager P v) (Keeps-refl v.md_manager);
    }

    Keeps-trans : (l m n : Manager) → Keeps l m → Keeps m n → Keeps l n
    Keeps-trans l m n first second = record {
      tight = λ t. second.tight (first.tight t);
      local_root = cc;
      secondary_root = cc;
    }

    reach-Keeps : (v w : Server P) (log : Log) → Reach P fuel junk v log w → ServerKeeps v w
    reach-Keeps v _ _ here = Keeps-refl v.md_manager
    reach-Keeps v _ _ (serve {log} {u} run req) =
        Keeps-trans _ _ _ (reach-Keeps v u log run)
          (dispatch-Moves P fuel junk Every ServerKeeps handlers-Keeps req tt u)
    reach-Keeps v _ _ (watch run x s e) = reach-Keeps v _ _ run
    reach-Keeps v _ _ (outside run s) = reach-Keeps v _ _ run

    -- Whatever requests a server gets, whatever its exporter thread copies and whatever others do to
    -- the storages: from an empty table, a path is buffered exactly when a descriptor is registered
    -- under it, and the two roots are those of the start.
    pub is_buffered-Reach :
        (v w : Server P) (log : Log) (q : Bytes)
        → v.md_manager.table ≡ []
        → Reach P fuel junk v log w
        → (is_buffered w.md_manager q ≡ not (is_empty (descriptors w.md_manager.table q)))
          × (w.md_manager.local_storage_root_path ≡ v.md_manager.local_storage_root_path)
          × (w.md_manager.secondary_storage_root_path ≡ v.md_manager.secondary_storage_root_path)
    is_buffered-Reach v w log q e run =
        let kept = reach-Keeps v w log run in
        (
          is_buffered_of_IsTight w.md_manager q (kept.tight (empty-IsTight v.md_manager e)),
          kept.local_root,
          kept.secondary_root,
        )
