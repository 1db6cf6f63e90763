-- ===== src/Server/Names.antt =====
-- The handlers of src/cbb/burst_buffer.cc that make, move and remove names.
use cbb.Common.OneLine.{write_one_line}
use cbb.Prelude.{ℕ, Bool, not, neg, if◌then◌else◌, ◌&&◌}
use cbb.Text.{Bytes}
use cbb.Common.{
  Error, cbb_success, SysResult, ok, fail, raw_result, errno_to_cbb_error, is_virtual_symlink,
  is_virtual_link,
}
use cbb.Posix.{Posix, Call}
use cbb.Manager
use cbb.Manager.{local_path, secondary_path}
use cbb.Exporter
use cbb.Exporter.{returned, threw, blocked}
use cbb.Server.{result, Handler, after_lock, reply_fs}

module _ (P : Posix) where
  open P use {State}

  -- Only the effect of a call whose result is dropped, where a test holds.
  abbrev when : Bool → Call State → State → State
  when test call s = if test then (call s).1 else s

  -- A call where a test holds, with its result through a conversion; 0 where the test fails.
  abbrev call_if : Bool → (SysResult ℕ → Error) → Call State → State → Error × State
  call_if test convert call s =
      if test
      then (let (r, t) = call s in let done : Error × State = (convert r, t) in done)
      else (cbb_success, s)

  unfoldable pub mk_dir : Bytes → ℕ → Handler P Error
  mk_dir path mode v =
      reply_fs
        (λ s.
          let l = local_path v.md_manager path in
          let r = secondary_path v.md_manager path in
          let (error, t) = call_if (not (P.exists s l)) errno_to_cbb_error (P.mkdir l mode) s in
          (error, when (not (P.exists t r)) (P.mkdir r mode) t))
        v

  -- The end of Unlink: the file of the secondary storage.
  unfoldable pub unlink_secondary : Bytes → Error → Handler P Error
  unlink_secondary path error v =
      let r = secondary_path v.md_manager path in
      (result error, record v { fs = when (P.exists v.fs r) (P.unlink r) v.fs })

  unfoldable pub unlink : Bytes → Handler P Error
  unfolding unlink_secondary Exporter.unregister Manager.unregister
  unlink path v =
      let l = local_path v.md_manager path in
      if P.exists v.fs l
      then after_lock (Exporter.unregister path)
          (λ w.
            let (m, s) = Manager.unregister P path w.md_manager w.fs in
            let (r, t) = P.unlink l s in
            unlink_secondary path (errno_to_cbb_error r) (record w { md_manager = m; fs = t }))
          v
      else unlink_secondary path cbb_success v

  unfoldable pub rm_dir : Bytes → Handler P Error
  rm_dir path v =
      reply_fs
        (λ s.
          let r = secondary_path v.md_manager path in
          let (e, t) = P.rmdir (local_path v.md_manager path) s in
          (errno_to_cbb_error e, when (P.exists t r) (P.rmdir r) t))
        v

  -- A virtual symlink is a file that holds the path; a directory gets real symlinks.
  unfoldable pub symlink : Bytes → Bytes → Handler P Error
  unfolding is_virtual_symlink write_one_line
  symlink path link v =
      reply_fs
        (λ s.
          let m = v.md_manager in
          let target = local_path m path in
          let second = secondary_path m path in
          let (error, t) =
            call_if (P.is_directory s target) raw_result (P.symlink target (local_path m link)) s in
          if is_virtual_symlink link
          then (cbb_success, write_one_line P (local_path m link) path s)
          else (error, when (P.is_directory t second) (P.symlink second (secondary_path m link)) t))
        v

  unfoldable pub link : Bytes → Bytes → Handler P Error
  unfolding is_virtual_link write_one_line
  link path newpath v =
      reply_fs
        (λ s.
          let m = v.md_manager in
          let target = local_path m path in
          let second = secondary_path m path in
          let (error, t) =
            call_if (P.is_directory s target) raw_result (P.link target (local_path m newpath)) s in
          let (error', u) = P.link second (secondary_path m newpath) t in
          if is_virtual_link newpath
          then (cbb_success, write_one_line P (local_path m newpath) path s)
          else if P.is_directory t second
          then (raw_result error', u)
          else (error, t))
        v

  -- `if (ec) { error = -1; }`
  abbrev error_of_code : SysResult ℕ → Error
  error_of_code (ok n) = cbb_success
  error_of_code (fail e) = neg 1

  -- Rename of a local regular file, once it has left the exporter's table.
  unfoldable pub rename_local : Bytes → Bytes → Handler P Error
  rename_local old_path new_path v =
      reply_fs
        (λ s.
          let m = v.md_manager in
          let target = local_path m old_path in
          let removed = (P.fs_remove (secondary_path m old_path) s).1 in
          let (ec, copied) = P.copy_file target (secondary_path m new_path) removed in
          (error_of_code ec, (P.fs_remove target copied).1))
        v

  -- The branch of Rename for a path that is no local directory.
  unfoldable pub rename_file : Bytes → Bytes → Handler P Error
  unfolding rename_local Exporter.unregister
  rename_file old_path new_path v =
      let m = v.md_manager in
      let target = local_path m old_path in
      let second = secondary_path m old_path in
      if P.exists v.fs target && P.is_regular_file v.fs target
      then after_lock (Exporter.unregister old_path) (rename_local old_path new_path) v
      else if P.exists v.fs second && P.is_regular_file v.fs second
      then reply_fs
          (λ s.
            let (ec, t) = P.fs_rename second (secondary_path m new_path) s in (error_of_code ec, t))
          v
      else (result cbb_success, v)
