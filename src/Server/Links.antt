-- ===== src/Server/Links.antt =====
-- ReadLink of src/cbb/burst_buffer.cc, for a buffer of at least one byte. The text of a link has no
-- zero byte; the reply is the text in the buffer before its first zero byte.
use cbb.Prelude.{ℕ, ◌+◌, ◌-◌, pos, negsuc, [], length}
use cbb.Text.{Bytes}
use cbb.Common.{Error, ok, fail}
use cbb.Posix.{Posix}
use cbb.Manager
use cbb.Manager.{Manager, remove_storage_path}
use cbb.Server.{Server, result, Handler}

module _ (P : Posix) where
  unfoldable pub read_link : Bytes → ℕ → Handler P (Error × Bytes)
  unfolding Manager.target_path remove_storage_path
  read_link path size v =
      let m = v.md_manager in
      elim (P.readlink v.fs (Manager.target_path P m v.fs path) (size - 1)) [
        | fail e ↦ (result (negsuc e, []), v)
        | ok text ↦
            let target = remove_storage_path m text in (result (pos (length target + 1), target), v)
      ]
