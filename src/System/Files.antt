-- ===== src/System/Files.antt =====
-- Open files across the client and the server: Open, and Release, of src/cbb/burst_buffer_client.cc
-- with the handlers of src/cbb/burst_buffer.cc.
use cbb.Prelude.{
  ap, ℕ, ◌≡◌, ◌<◌, ◌^◌, true, false, pos, [], ◌∷◌, some, Option, if◌then◌else◌, arith, refl,
}
use cbb.Text.{Bytes, eqb}
use cbb.Text.Find.{eqb_iff}
use cbb.Common.{Error, ok, raw_result}
use cbb.StdMap.{lookup, erase}
use cbb.Exporter.{Exporter}
use cbb.Posix.{Posix}
use cbb.Manager.{local_path}
use cbb.Manager.Table.{holds, holds-open_file}
use cbb.Server
use cbb.Server.{Server, result}
use cbb.Server.Files.{open_registered}
use cbb.Server.Exporting.{release_registers}
use cbb.Client.{Request, Method, text, num, Network, Client, ended, get_burst_buffer, to_u16}
use cbb.Client.Files
use cbb.Client.Files.{File, handle, start_prev_file_read}
use cbb.SelectServer.{get_info, ServerInfo}
use cbb.Dispatch.Handlers.{Junk, dispatch, dispatch_to, code_reply}
use cbb.System.{Delivers}
use cbb.System.Calls.{client_call_served}

module _ (P : Posix) (fuel : ℕ) (junk : Junk) where
  -- The request of Release reaches its handler.
  pub release_dispatched :
      (path : Bytes) (fd : ℕ) (v : Server P) (ret : Error)
      → fd < 2 ^ 31
      → (Server.Files.release P path fd v).0 ≡ result ret
      → dispatch P fuel junk
          (record { method = Method.release; params = text path ∷ num (pos fd) ∷ [] })
          v
        ≡ (result (code_reply P fuel junk ret), (Server.Files.release P path fd v).1)
  unfolding dispatch dispatch_to
  release_dispatched path fd v ret h e = ground (arith, e)

  -- The request of Open reaches its handler.
  pub open_dispatched :
      (path : Bytes) (flags : ℕ) (v : Server P) (ret : Error)
      → flags < 2 ^ 31
      → (Server.Files.open_file P path flags v).0 ≡ result ret
      → dispatch P fuel junk
          (record { method = Method.open_file; params = text path ∷ num (pos flags) ∷ [] })
          v
        ≡ (result (code_reply P fuel junk ret), (Server.Files.open_file P path flags v).1)
  unfolding dispatch dispatch_to
  open_dispatched path flags v ret h e = ground (arith, e)

  open_registered-holds :
      (path : Bytes) (flags fd : ℕ) (v : Server P)
      → (open_registered P path flags v).0 ≡ result (pos fd)
      → holds (open_registered P path flags v).1.md_manager path fd ≡ true
  unfolding open_registered
  open_registered-holds path flags fd v e =
      ground (arith, holds-open_file P path path flags fd v.md_manager v.fs, eqb_iff path path)

  open_file-holds :
      (path : Bytes) (flags fd : ℕ) (v : Server P)
      → (Server.Files.open_file P path flags v).0 ≡ result (pos fd)
      → holds (Server.Files.open_file P path flags v).1.md_manager path fd ≡ true
  unfolding Server.Files.open_file
  open_file-holds path flags fd v e =
      let x = v.lf_exporter in
      let erased : Exporter = record x { local_files = erase path x.local_files } in
      ground (
        arith,
        open_registered-holds path flags fd v,
        open_registered-holds path flags fd (record v { lf_exporter = erased }),
      )

module _ (P : Posix) (fuel : ℕ) (junk : Junk) (N : Network)
    (server_at : N.World → Bytes → ℕ → Option (Server P))
    (D : Delivers P fuel junk N server_at) where
  -- With the mutex free, Release of an open file returns what close answers on the server that opened
  -- it, and there, where the file is still on the local storage with a time that can be read, and the
  -- exporter's mutex is free, it registers the file for export with that time.
  release_remotely :
      (file : File) (c : Client N) (v : Server P) (t : ℕ) (q : Bytes)
      → c.is_locked ≡ false
      → server_at c.world file.bb_host file.bb_port ≡ some v
      → file.fd_org < 2 ^ 31
      → v.lf_exporter.locked ≡ false
      → P.exists (P.close file.fd_org v.fs).1 (local_path v.md_manager file.path) ≡ true
      → P.last_write_time (P.close file.fd_org v.fs).1 (local_path v.md_manager file.path) ≡ ok t
      → let r = Files.release N file c in
        (w : Server P) × (server_at r.1.world file.bb_host file.bb_port ≡ some w)
        × (r.0 ≡ ended (raw_result (P.close file.fd_org v.fs).0))
        × (lookup q w.lf_exporter.local_files
            ≡ (if eqb q file.path then some t else lookup q v.lf_exporter.local_files))
  unfolding Files.release
  release_remotely file c v t q u at fits x e l =
      let (answer, registered, left) =
        release_registers P file.path q file.fd_org file.fd_org t v x e l in
      let ran =
        release_dispatched P fuel junk file.path file.fd_org v
          (raw_result (P.close file.fd_org v.fs).0) fits answer in
      let req : Request = record {
        method = Method.release;
        params = text file.path ∷ num (pos file.fd_org) ∷ [];
      } in
      let done =
        client_call_served P fuel junk N server_at D file.bb_host file.bb_port req c v
          (code_reply P fuel junk (raw_result (P.close file.fd_org v.fs).0)) u at
          (ap (λ r. r.0) ran) in
      let moved =
        D.server_at-send file.bb_host file.bb_host file.bb_port file.bb_port req c.world v at in
      (
        (Server.Files.release P file.path file.fd_org v).1,
        ground (arith, done, moved, ran, eqb_iff file.bb_host file.bb_host),
        ground (arith, done),
        registered,
      )

  -- With the mutex free, when the server of a path opens it with a descriptor, Open of the client
  -- succeeds with a file that names this server, this path and this descriptor, and the server has
  -- the descriptor registered under the path.
  pub open_remotely :
      (path : Bytes) (flags fd : ℕ) (c : Client N) (info : ServerInfo) (v : Server P)
      → c.is_locked ≡ false
      → get_info c.select_server path ≡ some info
      → server_at c.world info.host (to_u16 info.port) ≡ some v
      → flags < 2 ^ 31
      → (Server.Files.open_file P path flags v).0 ≡ result (pos fd)
      → let r = Files.open_file N path (pos flags) c in
        (f : File) × (w : Server P) × (r.0 ≡ ended (pos 0, some f))
        × (f.path ≡ path)
        × (f.fd_org ≡ fd)
        × (server_at r.1.world f.bb_host f.bb_port ≡ some w)
        × (holds w.md_manager path fd ≡ true)
  unfolding Files.open_file get_burst_buffer start_prev_file_read
  open_remotely path flags fd c info v u i at fits opens =
      let port = to_u16 info.port in
      let ran = open_dispatched P fuel junk path flags v (pos fd) fits opens in
      let req : Request = record {
        method = Method.open_file;
        params = text path ∷ num (pos flags) ∷ [];
      } in
      let done =
        client_call_served P fuel junk N server_at D info.host port req c v
          (code_reply P fuel junk (pos fd)) u at (ap (λ r. r.0) ran) in
      let moved = D.server_at-send info.host info.host port port req c.world v at in
      (
        record {
          path = path;
          bb_host = info.host;
          bb_port = port;
          fd_org = fd;
          fd = handle N info.host fd;
        },
        (Server.Files.open_file P path flags v).1,
        ground (arith, done),
        refl,
        refl,
        ground (arith, done, moved, ran, eqb_iff info.host info.host),
        open_file-holds P fuel junk path flags fd v opens,
      )
