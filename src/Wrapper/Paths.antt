-- ===== src/Wrapper/Paths.antt =====
-- src/cbfs/cbb_client_wrapper.cc: the callbacks of FUSE on paths, and those on open files that also
-- take the path. cbb_to_fuse_error gives its argument back. `junk` is an uninitialised `Error`.
use cbb.Prelude.{ℕ, ℤ, List, [], ◌∷◌, Option, none, some, is_zero, if◌then◌else◌}
use cbb.Text.{Bytes}
use cbb.Common.{Error, cbb_success, FileStat, StatVfs, TimeSpec, dir_all}
use cbb.StdMap.{Map}
use cbb.Server.ReadDir.{Listed}
use cbb.Settings.{Tree, Settings}
use cbb.Client.{Network, pure, ◌>>=◌}
use cbb.Client.Attributes
use cbb.Client.Files
use cbb.Client.Files.{File}
use cbb.Client.Names
use cbb.Client.Start
use cbb.Wrapper.{Callback, lift, on_file, file_of}

-- An entry that the filler of FUSE gets.
pub record Filled : Type 0 where
  pub name : Bytes
  pub st_ino : ℕ
  pub st_mode : ℕ

-- The loop of CBFSReadDir.
unfoldable pub fill : Map Listed → List Filled
fill [] = []
fill ((name, st) ∷ more) =
    record { name = name; st_ino = st.st_ino; st_mode = st.st_mode } ∷ fill more

module _ (N : Network) where
  -- CBFSGetAttr: the attributes only where the error is 0.
  unfoldable pub cbfs_get_attr : Bytes → Callback N (Error × Option FileStat)
  unfolding Names.get_attr
  cbfs_get_attr path = lift N (do
    a ← Names.get_attr N path
    pure (if is_zero a.error then (cbb_success, some a.file_stat) else (a.error, none)))

  unfoldable pub cbfs_read_link : Bytes → ℕ → Callback N (Error × Bytes)
  unfolding Names.read_link
  cbfs_read_link path size = lift N (Names.read_link N path size)

  unfoldable pub cbfs_mk_dir : Bytes → ℕ → Error → Callback N Error
  unfolding Names.mk_dir
  cbfs_mk_dir path mode junk = lift N (Names.mk_dir N path mode junk)

  unfoldable pub cbfs_unlink : Bytes → Error → Callback N Error
  unfolding Names.unlink
  cbfs_unlink path junk = lift N (Names.unlink N path junk)

  unfoldable pub cbfs_rm_dir : Bytes → Error → Callback N Error
  unfolding Names.rm_dir
  cbfs_rm_dir path junk = lift N (Names.rm_dir N path junk)

  unfoldable pub cbfs_symlink : Bytes → Bytes → Callback N Error
  unfolding Names.symlink
  cbfs_symlink path link = lift N (Names.symlink N path link)

  unfoldable pub cbfs_rename : Bytes → Bytes → Callback N Error
  unfolding Names.rename
  cbfs_rename old_path new_path = lift N (Names.rename N old_path new_path)

  unfoldable pub cbfs_link : Bytes → Bytes → Callback N Error
  unfolding Names.link
  cbfs_link path newpath = lift N (Names.link N path newpath)

  unfoldable pub cbfs_chmod : Bytes → ℕ → Callback N Error
  unfolding Attributes.chmod
  cbfs_chmod path mode = lift N (Attributes.chmod N path mode)

  unfoldable pub cbfs_chown : Bytes → ℕ → ℕ → Callback N Error
  unfolding Attributes.chown
  cbfs_chown path uid gid = lift N (Attributes.chown N path uid gid)

  unfoldable pub cbfs_truncate : Bytes → ℤ → Callback N Error
  unfolding Attributes.truncate
  cbfs_truncate path size = lift N (Attributes.truncate N path size)

  unfoldable pub cbfs_stat_fs : Bytes → Callback N (Error × StatVfs)
  unfolding Attributes.stat_fs
  cbfs_stat_fs path = lift N (Attributes.stat_fs N path)

  unfoldable pub cbfs_set_xattr : Bytes → Bytes → Bytes → ℕ → ℤ → Callback N Error
  unfolding Names.set_xattr
  cbfs_set_xattr path name value size flags = lift N (Names.set_xattr N path name value size flags)

  unfoldable pub cbfs_get_xattr : Bytes → Bytes → Bytes → ℕ → Callback N (Error × Bytes)
  unfolding Attributes.get_xattr
  cbfs_get_xattr path name value size = lift N (Attributes.get_xattr N path name value size)

  unfoldable pub cbfs_list_xattr : Bytes → Bytes → ℕ → Callback N (Error × Bytes)
  unfolding Attributes.list_xattr
  cbfs_list_xattr path list size = lift N (Attributes.list_xattr N path list size)

  unfoldable pub cbfs_remove_xattr : Bytes → Bytes → Callback N Error
  unfolding Attributes.remove_xattr
  cbfs_remove_xattr path name = lift N (Attributes.remove_xattr N path name)

  -- CBFSReadDir: the error, and what the filler gets where it is 0.
  unfoldable pub cbfs_read_dir : Bytes → ℤ → Error → Callback N (Error × List Filled)
  unfolding Files.read_dir fill
  cbfs_read_dir path offset junk = lift N (do
    (error, file_stats) ← Files.read_dir N path offset dir_all junk
    pure (if is_zero error then (cbb_success, fill file_stats) else (error, [])))

  unfoldable pub cbfs_fsync_dir : Bytes → ℤ → File → ℕ → Error → Callback N Error
  unfolding file_of Files.fsync_dir
  cbfs_fsync_dir path datasync blank fh junk =
      on_file N blank fh (λ file. Files.fsync_dir N path datasync junk)

  unfoldable pub cbfs_access : Bytes → ℤ → Callback N Error
  unfolding Attributes.access
  cbfs_access path mode = lift N (Attributes.access N path mode)

  -- CBFSFGetAttr: the attributes are not copied to the caller's structure.
  unfoldable pub cbfs_fget_attr : Bytes → File → ℕ → Callback N Error
  unfolding file_of Attributes.fget_attr
  cbfs_fget_attr path blank fh =
      on_file N blank fh
        (λ file. do (error, file_stat) ← Attributes.fget_attr N path file.fd_org; pure error)

  unfoldable pub cbfs_lock : Bytes → File → ℕ → Callback N Error
  unfolding file_of Files.lock
  cbfs_lock path blank fh = on_file N blank fh (λ file. Files.lock N path file)

  unfoldable pub cbfs_utimens : Bytes → TimeSpec → TimeSpec → Callback N Error
  unfolding Attributes.utimens
  cbfs_utimens path time0 time1 = lift N (Attributes.utimens N path time0 time1)

  -- CBFSInit: Init from the parsed file at the path of the configuration.
  unfoldable pub cbfs_init :
      (Bytes → Option ℤ) → (Bytes → Option (List ℕ)) → Option Tree → Settings → Callback N Error
  unfolding Start.init
  cbfs_init to_int digest file settings = lift N (Start.init N to_int digest file settings)
