-- ===== src/Server/Files.antt =====
-- The handlers of src/cbb/burst_buffer.cc that work on open files and copy between the storages.
use cbb.Prelude.{ℕ, not, ℤ, none, some, if◌then◌else◌, is_zero}
use cbb.Text.{Bytes}
use cbb.Common.{Error, cbb_success}
use cbb.Posix.{Posix}
use cbb.FileControl.{write_flag}
use cbb.Manager
use cbb.Exporter
use cbb.Exporter.{returned, threw, blocked}
use cbb.Server.{Server, result, error_reply, no_reply, Handler, after_lock, reply_fs, reply_manager}

module _ (P : Posix) where
  -- What Open does after the exporter.
  unfoldable pub open_registered : Bytes → ℕ → Handler P ℤ
  unfolding Manager.open_file
  open_registered path flags v =
      let (r, m, s) = Manager.open_file P path flags v.md_manager v.fs in
      let w : Server P = record v { md_manager = m; fs = s } in
      elim r [ none ↦ (error_reply, w) | some fd ↦ (result fd, w) ]

  unfoldable pub open_file : Bytes → ℕ → Handler P ℤ
  unfolding open_registered write_flag Exporter.unregister
  open_file path flags v =
      if write_flag flags
      then after_lock (Exporter.unregister path) (open_registered path flags) v
      else open_registered path flags v

  unfoldable pub create : Bytes → ℕ → ℕ → Handler P ℤ
  unfolding Exporter.unregister Manager.create
  create path flags mode v =
      after_lock (Exporter.unregister path) (reply_manager (Manager.create P path flags mode)) v

  -- The size and what was read; the rest of the buffer, which the reply also has, is left out. Where
  -- there is no memory for the buffer the assertion ends the program, and nothing is answered.
  unfoldable pub read : Bytes → ℕ → ℕ → ℤ → Handler P (ℤ × Bytes)
  unfolding Manager.read
  read path fd size offset v =
      if P.zone_malloc v.fs size
      then (result (Manager.read P fd size offset v.fs), v)
      else (no_reply, v)

  unfoldable pub write : Bytes → ℕ → ℤ → Bytes → Handler P ℤ
  unfolding Manager.write
  write path fd offset raw v = reply_fs (Manager.write P fd raw offset) v

  unfoldable pub flush : Bytes → ℕ → Handler P ℤ
  unfolding Manager.flush
  flush path fd v = reply_fs (Manager.flush P fd) v

  -- The result of Close is sent, and then the file is registered for export.
  unfoldable pub release : Bytes → ℕ → Handler P ℤ
  unfolding Manager.close Exporter.register
  release path fd v =
      let (ret, m, s) = Manager.close P path fd v.md_manager v.fs in
      let w : Server P = record v { md_manager = m; fs = s } in
      elim (Exporter.register P m path v.lf_exporter s) [
        | returned (x, done) ↦ (result ret, record w { lf_exporter = x })
        | threw (x, done) ↦ (result ret, record w { lf_exporter = x })
        | blocked ↦ (result ret, w)
      ]

  unfoldable pub fsync : Bytes → ℕ → ℤ → Handler P ℤ
  unfolding Manager.fsync
  fsync path fd datasync v = reply_fs (Manager.fsync P fd (not (is_zero datasync))) v

  unfoldable pub ftruncate : Bytes → ℕ → ℤ → Handler P Error
  unfolding Manager.ftruncate
  ftruncate path fd size v = reply_fs (Manager.ftruncate P fd size) v

  unfoldable pub file_prev_read : Bytes → Handler P Error
  unfolding Manager.copy_secondary_to_local
  file_prev_read path v =
      let (r, s) = Manager.copy_secondary_to_local P path v.md_manager v.fs in
      elim r [
        | none ↦ (error_reply, record v { fs = s })
        | some error ↦ (result error, record v { fs = s })
      ]

  unfoldable pub file_flush : Bytes → Handler P Error
  unfolding Manager.file_flush
  file_flush path v = reply_manager (Manager.file_flush P path) v

  unfoldable pub local_file_export : Handler P Error
  unfolding Exporter.check_local_files
  local_file_export v = elim (Exporter.check_local_files P v.md_manager v.lf_exporter v.fs) [
    | returned (x, s) ↦ (result cbb_success, record v { lf_exporter = x; fs = s })
    | threw (x, s) ↦ (error_reply, record v { lf_exporter = x; fs = s })
    | blocked ↦ (no_reply, v)
  ]
