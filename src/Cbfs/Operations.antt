-- ===== src/Cbfs/Operations.antt =====
-- SetOperations of src/cbfs/cbfs.cc: the callback that FUSE runs for each of its calls. A call whose
-- callback is not set has none; FUSE then does without it. `blank` and `junk` are uninitialised.
use cbb.Prelude.{ℕ, ℤ, List, Option, none, some}
use cbb.Text.{Bytes}
use cbb.Common.{Error, FileStat, StatVfs, TimeSpec}
use cbb.Client.{Network, ended, raised, aborted, blocked}
use cbb.Client.Files.{File}
use cbb.Wrapper
use cbb.Wrapper.{Callback}
use cbb.Wrapper.Paths
use cbb.Wrapper.Paths.{Filled}

-- The calls of FUSE, with a path or a handle, and their arguments.
pub data FuseCall : Type 0 where
  getattr unlink rmdir statfs : Bytes → FuseCall
  flush release : ℕ → FuseCall
  fgetattr lock readlink mkdir chmod : Bytes → ℕ → FuseCall
  symlink rename link removexattr : Bytes → Bytes → FuseCall
  chown : Bytes → ℕ → ℕ → FuseCall
  truncate access open_file : Bytes → ℤ → FuseCall
  create : Bytes → ℤ → ℕ → FuseCall
  read : ℕ → ℕ → ℤ → FuseCall
  write : ℕ → Bytes → ℤ → FuseCall
  fsync ftruncate : ℕ → ℤ → FuseCall
  fsyncdir : Bytes → ℤ → ℕ → FuseCall
  setxattr : Bytes → Bytes → Bytes → ℕ → ℤ → FuseCall
  getxattr : Bytes → Bytes → Bytes → ℕ → FuseCall
  listxattr : Bytes → Bytes → ℕ → FuseCall
  readdir : Bytes → ℤ → FuseCall
  utimens : Bytes → TimeSpec → TimeSpec → FuseCall

-- What a callback gives back: the int that it returns, and what it writes for its caller.
pub data FuseReply : Type 0 where
  returned : ℤ → FuseReply
  attributes : ℤ → Option FileStat → FuseReply
  buffer : ℤ → Bytes → FuseReply
  handle : ℤ → ℕ → FuseReply
  stat_vfs : ℤ → StatVfs → FuseReply
  filled : ℤ → List Filled → FuseReply

module _ (N : Network) (blank : File) (junk : Error) where
  abbrev pub answer : {A : Type 0} → (A → FuseReply) → Callback N A → Option (Callback N FuseReply)
  answer f callback = some (λ v.
      let (r, w) = callback v in
      elim r [
        | ended a ↦ (ended (f a), w)
        | raised ↦ (raised, w)
        | aborted ↦ (aborted, w)
        | blocked ↦ (blocked, w)
      ])

  -- SetOperations: fgetattr and lock are commented out.
  unfoldable pub cbfs_operations : FuseCall → Option (Callback N FuseReply)
  cbfs_operations (getattr path) = answer (λ r. attributes r.0 r.1) (Paths.cbfs_get_attr N path)
  cbfs_operations (readlink path size) =
      answer (λ r. buffer r.0 r.1) (Paths.cbfs_read_link N path size)
  cbfs_operations (mkdir path mode) = answer returned (Paths.cbfs_mk_dir N path mode junk)
  cbfs_operations (unlink path) = answer returned (Paths.cbfs_unlink N path junk)
  cbfs_operations (rmdir path) = answer returned (Paths.cbfs_rm_dir N path junk)
  cbfs_operations (symlink path link_path) = answer returned (Paths.cbfs_symlink N path link_path)
  cbfs_operations (rename old_path new_path) =
      answer returned (Paths.cbfs_rename N old_path new_path)
  cbfs_operations (link path newpath) = answer returned (Paths.cbfs_link N path newpath)
  cbfs_operations (chmod path mode) = answer returned (Paths.cbfs_chmod N path mode)
  cbfs_operations (chown path uid gid) = answer returned (Paths.cbfs_chown N path uid gid)
  cbfs_operations (truncate path size) = answer returned (Paths.cbfs_truncate N path size)
  cbfs_operations (open_file path flags) =
      answer (λ r. handle r.0 r.1) (Wrapper.cbfs_open N path flags)
  cbfs_operations (read fh size offset) =
      answer (λ r. buffer r.0 r.1) (Wrapper.cbfs_read N blank fh size offset)
  cbfs_operations (write fh buf offset) = answer returned (Wrapper.cbfs_write N blank fh buf offset)
  cbfs_operations (statfs path) = answer (λ r. stat_vfs r.0 r.1) (Paths.cbfs_stat_fs N path)
  cbfs_operations (flush fh) = answer returned (Wrapper.cbfs_flush N blank fh)
  cbfs_operations (release fh) = answer returned (Wrapper.cbfs_release N blank fh)
  cbfs_operations (fsync fh datasync) = answer returned (Wrapper.cbfs_fsync N blank fh datasync)
  cbfs_operations (setxattr path name value size flags) =
      answer returned (Paths.cbfs_set_xattr N path name value size flags)
  cbfs_operations (getxattr path name value size) =
      answer (λ r. buffer r.0 r.1) (Paths.cbfs_get_xattr N path name value size)
  cbfs_operations (listxattr path list size) =
      answer (λ r. buffer r.0 r.1) (Paths.cbfs_list_xattr N path list size)
  cbfs_operations (removexattr path name) = answer returned (Paths.cbfs_remove_xattr N path name)
  cbfs_operations (readdir path offset) =
      answer (λ r. filled r.0 r.1) (Paths.cbfs_read_dir N path offset junk)
  cbfs_operations (fsyncdir path datasync fh) =
      answer returned (Paths.cbfs_fsync_dir N path datasync blank fh junk)
  cbfs_operations (access path mode) = answer returned (Paths.cbfs_access N path mode)
  cbfs_operations (create path flags mode) =
      answer (λ r. handle r.0 r.1) (Wrapper.cbfs_create N path flags mode)
  cbfs_operations (ftruncate fh size) = answer returned (Wrapper.cbfs_ftruncate N blank fh size)
  cbfs_operations (fgetattr path fh) = none
  cbfs_operations (lock path fh) = none
  cbfs_operations (utimens path time0 time1) =
      answer returned (Paths.cbfs_utimens N path time0 time1)
