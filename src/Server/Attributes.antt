-- ===== src/Server/Attributes.antt =====
-- The handlers of src/cbb/burst_buffer.cc for the attributes of files.
use cbb.Prelude.{ℕ, not, ℤ, Option, if◌then◌else◌}
use cbb.Text.{Bytes}
use cbb.Common.{Error, cbb_success, raw_result, errno_to_cbb_error, FileStat, TimeSpec}
use cbb.Posix.{Posix}
use cbb.Manager
use cbb.Manager.{local_path, secondary_path}
use cbb.Server.{result, Handler, reply_fs}

module _ (P : Posix) where
  unfoldable pub get_attr : Bytes → Handler P (Error × Option FileStat × Bytes)
  unfolding Manager.get_file_stat
  get_attr path v = (result (Manager.get_file_stat P v.md_manager v.fs path), v)

  unfoldable pub fget_attr : Bytes → ℕ → Handler P (Error × Option FileStat)
  unfolding Manager.get_file_stat_fd
  fget_attr path fd v = (result (Manager.get_file_stat_fd P v.fs fd), v)

  unfoldable pub chmod : Bytes → ℕ → Handler P Error
  unfolding Manager.chmod
  chmod path mode v = reply_fs (Manager.chmod P path mode v.md_manager) v

  unfoldable pub chown : Bytes → ℕ → ℕ → Handler P Error
  unfolding Manager.chown
  chown path uid gid v = reply_fs (Manager.chown P path uid gid v.md_manager) v

  unfoldable pub truncate : Bytes → ℤ → Handler P Error
  unfolding Manager.truncate
  truncate path size v = reply_fs (Manager.truncate P path size v.md_manager) v

  unfoldable pub access : Bytes → ℕ → Handler P Error
  unfolding Manager.access
  access path mode v = (result (Manager.access P path mode v.md_manager v.fs), v)

  unfoldable pub utimens : Bytes → TimeSpec → TimeSpec → Handler P Error
  unfolding Manager.utimens
  utimens path time0 time1 v = reply_fs (Manager.utimens P path time0 time1 v.md_manager) v

  -- The attribute is set on each storage where the file does not exist.
  unfoldable pub set_xattr : Bytes → Bytes → Bytes → ℕ → ℕ → Handler P Error
  set_xattr path name value size flags v =
      reply_fs
        (λ s.
          let l = local_path v.md_manager path in
          let r = secondary_path v.md_manager path in
          let (e, t) = P.lsetxattr l name value size flags s in
          let first : Error × P.State =
            (if not (P.exists s l) then (errno_to_cbb_error e, t) else (cbb_success, s)) in
          let s' = first.1 in
          (
            first.0,
            (if not (P.exists s' r) then (P.lsetxattr r name value size flags s').1 else s'),
          ))
        v

  unfoldable pub remove_xattr : Bytes → Bytes → Handler P Error
  unfolding Manager.target_path
  remove_xattr path name v =
      reply_fs
        (λ s.
          let (e, t) = P.lremovexattr (Manager.target_path P v.md_manager s path) name s in
          (raw_result e, t))
        v

  unfoldable pub lock : Bytes → ℕ → ℤ → Handler P Error
  lock path fd cmd v = reply_fs (λ s. let (e, t) = P.flock fd cmd s in (raw_result e, t)) v
