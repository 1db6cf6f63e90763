-- ===== src/Server/Locking.antt =====
-- The exporter's mutex across the handlers of src/cbb/burst_buffer.cc.
use cbb.Common.{cbb_success}
use cbb.Prelude.{if◌then◌else◌, ℕ, ◌≡◌, true, arith}
use cbb.Text.{Bytes}
use cbb.Posix.{Posix}
use cbb.Manager.{local_path}
use cbb.Server.{Server, error_reply, no_reply}
use cbb.Server.Files.{create, local_file_export}
use cbb.Server.Names.{unlink_secondary, unlink}

module _ (P : Posix) where
  local_file_export_locked :
      (v w : Server P) → local_file_export P v ≡ (error_reply, w) → w.lf_exporter.locked ≡ true
  unfolding local_file_export
  local_file_export_locked v w h = ground arith

  -- An export that ends in an exception leaves the mutex locked: from then on neither Create, nor
  -- another export is ever answered, and none of them changes anything; Unlink is answered only for a
  -- path that is not on the local storage.
  pub local_file_export_deadlock :
      (v w : Server P)
      → local_file_export P v ≡ (error_reply, w)
      → (local_file_export P w ≡ (no_reply, w))
        × ((path : Bytes) (flags mode : ℕ) → create P path flags mode w ≡ (no_reply, w))
        × ((path : Bytes)
            → unlink P path w ≡ (
                if P.exists w.fs (local_path w.md_manager path)
                then (no_reply, w)
                else unlink_secondary P path cbb_success w))
  unfolding local_file_export create unlink
  local_file_export_deadlock v w h =
      let stays = local_file_export_locked v w h in
      (ground arith, λ path flags mode. ground arith, λ path. ground arith)
