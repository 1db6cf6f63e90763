-- ===== src/System/NewFile.antt =====
-- Create and Release, of src/cbb/burst_buffer_client.cc with the handlers of src/cbb/burst_buffer.cc,
-- with the whole server afterwards.
use cbb.Prelude.{ℕ, ◌≡◌, ◌<◌, ◌^◌, true, false, pos, [], ◌∷◌, some, Option, arith, refl}
use cbb.Text.{Bytes}
use cbb.Text.Find.{eqb_iff}
use cbb.Common.{ok, raw_result}
use cbb.StdMap.{lookup, erase}
use cbb.Posix.{Posix}
use cbb.Manager.{Manager, local_path, secondary_path, register, unregister_fd, descriptors}
use cbb.Manager
use cbb.Exporter
use cbb.Exporter.{Exporter}
use cbb.Server
use cbb.Server.{Server, result}
use cbb.Server.Exporting.{release_registers}
use cbb.Client.{Method, text, num, Network, Client, ended, get_burst_buffer, to_u16}
use cbb.Client.Files
use cbb.Client.Files.{File, handle}
use cbb.SelectServer.{get_info, ServerInfo}
use cbb.Dispatch.Handlers.{Junk, dispatch, dispatch_to, code_reply}
use cbb.System.{Delivers}
use cbb.System.Calls.{sent_to}
use cbb.System.Data.{Ready, client_call-Ready}
use cbb.System.Files.{release_dispatched}

-- The paths of the two storages do not depend on the table.
pub paths_register :
    (path q : Bytes) (fd : ℕ) (m : Manager)
    → (local_path (register path fd m) q ≡ local_path m q)
      × (secondary_path (register path fd m) q ≡ secondary_path m q)
unfolding register local_path secondary_path
paths_register path q fd m = (refl, refl)

pub paths_unregister_fd :
    (path q : Bytes) (fd : ℕ) (m : Manager)
    → (local_path (unregister_fd path fd m) q ≡ local_path m q)
      × (secondary_path (unregister_fd path fd m) q ≡ secondary_path m q)
unfolding unregister_fd local_path secondary_path
paths_unregister_fd path q fd m = (ground arith, ground arith)

module _ (P : Posix) (fuel : ℕ) (junk : Junk) where
  -- The server after Create of a file gave a descriptor.
  abbrev pub created : Bytes → ℕ → P.State → Server P → Server P
  created path fd s v = record {
    md_manager = register path fd v.md_manager;
    lf_exporter = record v.lf_exporter { local_files = erase path v.lf_exporter.local_files };
    fs = s;
  }

  create_dispatched :
      (path : Bytes) (flags mode fd : ℕ) (v : Server P) (s : P.State)
      → flags < 2 ^ 31
      → mode < 2 ^ 32
      → v.lf_exporter.locked ≡ false
      → P.open_file_mode (local_path v.md_manager path) flags mode v.fs ≡ (ok fd, s)
      → dispatch P fuel junk
          (record {
            method = Method.create;
            params = text path ∷ num (pos flags) ∷ num (pos mode) ∷ [];
          })
          v
        ≡ (result (code_reply P fuel junk (pos fd)), created path fd s v)
  unfolding dispatch dispatch_to Server.Files.create Manager.create Exporter.unregister
  create_dispatched path flags mode fd v s h m u e = ground arith

  pub release_state :
      (path : Bytes) (fd : ℕ) (v : Server P)
      → (Server.Files.release P path fd v).1.fs ≡ (P.close fd v.fs).1
  unfolding Server.Files.release
  release_state path fd v = ground arith

module _ (N : Network) where
  -- What Create of the client gives for a descriptor.
  abbrev pub file_of : Bytes → ServerInfo → ℕ → File
  file_of path info fd = record {
    path = path;
    bb_host = info.host;
    bb_port = to_u16 info.port;
    fd_org = fd;
    fd = handle N info.host fd;
  }

module _ (P : Posix) (fuel : ℕ) (junk : Junk) (N : Network)
    (server_at : N.World → Bytes → ℕ → Option (Server P))
    (D : Delivers P fuel junk N server_at) where
  pub create_remotely :
      (path : Bytes) (flags mode fd : ℕ) (c : Client N) (info : ServerInfo) (v : Server P)
      (s : P.State)
      → get_info c.select_server path ≡ some info
      → Ready P fuel junk N server_at D info.host (to_u16 info.port) v c
      → flags < 2 ^ 31
      → mode < 2 ^ 32
      → v.lf_exporter.locked ≡ false
      → P.open_file_mode (local_path v.md_manager path) flags mode v.fs ≡ (ok fd, s)
      → let r = Files.create N path (pos flags) mode c in
        (r.0 ≡ ended (pos 0, some (file_of N path info fd)))
        × Ready P fuel junk N server_at D info.host
            (to_u16 info.port)
            (created P fuel junk path fd s v)
            r.1
  unfolding Files.create get_burst_buffer
  create_remotely path flags mode fd c info v s i r f m u e =
      let (done, after) =
        client_call-Ready P fuel junk N server_at D info.host (to_u16 info.port) _ c v
          (created P fuel junk path fd s v) _ r
          (create_dispatched P fuel junk path flags mode fd v s f m u e) in
      let whole : Files.create N path (pos flags) mode c ≡ (
        ended (pos 0, some (file_of N path info fd)),
        sent_to N info.host (to_u16 info.port) _ c,
      ) =
        ground (arith, done, i) in
      rw whole (refl, after)

  -- Release, with the server afterwards.
  pub release-Ready :
      (file : File) (c : Client N) (v : Server P) (t : ℕ)
      → Ready P fuel junk N server_at D file.bb_host file.bb_port v c
      → file.fd_org < 2 ^ 31
      → v.lf_exporter.locked ≡ false
      → P.exists (P.close file.fd_org v.fs).1 (local_path v.md_manager file.path) ≡ true
      → P.last_write_time (P.close file.fd_org v.fs).1 (local_path v.md_manager file.path) ≡ ok t
      → let w = (Server.Files.release P file.path file.fd_org v).1 in
        Ready P fuel junk N server_at D file.bb_host file.bb_port w (Files.release N file c).1
        × (lookup file.path w.lf_exporter.local_files ≡ some t)
  unfolding Files.release
  release-Ready file c v t r fits u e l =
      let (answer, registered, left) =
        release_registers P file.path file.path file.fd_org file.fd_org t v u e l in
      let ran =
        release_dispatched P fuel junk file.path file.fd_org v
          (raw_result (P.close file.fd_org v.fs).0) fits answer in
      let (done, after) =
        client_call-Ready P fuel junk N server_at D file.bb_host file.bb_port _ c v _ _ r ran in
      let whole : (Files.release N file c).1
          ≡ sent_to N file.bb_host file.bb_port
              (record {
                method = Method.release;
                params = text file.path ∷ num (pos file.fd_org) ∷ [];
              })
              c =
        ground (arith, done) in
      (rw whole after, ground (arith, registered, eqb_iff file.path file.path))
