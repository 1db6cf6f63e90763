-- ===== src/FileControl.antt =====
-- src/util/file_control.cc: a file through its descriptor. The object is its one field `fd_`, a
-- descriptor here, so that the assertions `fd_ != -1` hold. `flock` is commented out in the source.
use cbb.Prelude.{negsuc, ℕ, Bool, ℤ, pos, neg, List, if◌then◌else◌, length, ◌==◌, ◌%◌}
use cbb.Text.{Bytes}
use cbb.Common.{SysResult, ok, fail, raw_result}
use cbb.Posix.{Posix}

-- `flags & (O_WRONLY | O_RDWR) != 0`: `!=` binds tighter than `&`, so that this is `flags & 1`.
unfoldable pub write_flag : ℕ → Bool
write_flag flags = flags % 2 == 1

module _ (P : Posix) where
  open P use {State}

  -- FileControl::Create: the call's result; the lock mode that it computes is not used.
  unfoldable pub create : Bytes → ℕ → ℕ → State → SysResult ℕ × State
  create path flags mode s = P.open_file_mode path flags mode s

  -- FileControl::Open
  unfoldable pub open_file : Bytes → ℕ → State → SysResult ℕ × State
  open_file path flags s = P.open_file path flags s

  -- FileControl::Read: the size or -errno, and what is in the buffer.
  unfoldable pub read : ℕ → ℕ → ℤ → State → ℤ × Bytes
  read fd size offset s = elim (P.pread fd size offset s) [
    | ok bs ↦ (pos (length bs), bs)
    | fail e ↦ (negsuc e, List.[])
  ]

  -- FileControl::Write: the size or -errno.
  unfoldable pub write : ℕ → Bytes → ℤ → State → ℤ × State
  write fd bs offset s =
      let (r, s') = P.pwrite fd bs offset s in
      elim r [ ok ssize ↦ (pos ssize, s') | fail e ↦ (negsuc e, s') ]

  -- FileControl::FSync: the call's own result.
  unfoldable pub fsync : ℕ → Bool → State → ℤ × State
  fsync fd is_data s =
      let (r, s') = (if is_data then P.fdatasync fd s else P.fsync fd s) in (raw_result r, s')

  -- FileControl::Flush: close(dup(fd_)); close(-1) fails with -1.
  unfoldable pub flush : ℕ → State → ℤ × State
  flush fd s =
      let (d, s') = P.dup fd s in
      elim d [
        | fail e ↦ (neg 1, s')
        | ok copy ↦ let (r, s'') = P.close copy s' in (raw_result r, s'')
      ]

  -- FileControl::Close
  unfoldable pub close : ℕ → State → ℤ × State
  close fd s = let (r, s') = P.close fd s in (raw_result r, s')
