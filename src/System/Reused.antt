-- ===== src/System/Reused.antt =====
-- A descriptor that a client of src/cbb/burst_buffer_client.cc keeps after Unlink, in
-- src/cbb/burst_buffer.cc and src/cbb/meta_data_manager.cc, has closed it.
use cbb.Prelude.{ℕ, ◌≡◌, ◌<◌, ◌^◌, true, false, pos, some, Option, arith, take, []}
use cbb.Text.{Bytes}
use cbb.Text.Find.{eqb_iff}
use cbb.Common.{ok}
use cbb.Posix.{Posix}
use cbb.Posix.Data.{splice, KeepsData}
use cbb.Manager.{Manager, local_path}
use cbb.Manager
use cbb.Manager.Table.{holds, holds-unregister}
use cbb.Exporter
use cbb.Server
use cbb.Server.{Server}
use cbb.Client.{Network, Client, ended, to_u16}
use cbb.Client.Files
use cbb.Client.Files.{File}
use cbb.SelectServer.{get_info, ServerInfo}
use cbb.Dispatch.Handlers.{Junk}
use cbb.System.{Delivers}
use cbb.System.Data.{Ready, write_remotely}
use cbb.System.NewFile.{create_remotely, created, file_of}

module _ (P : Posix) where
  -- The server after Unlink.
  abbrev pub unlinked : Bytes → Server P → Server P
  unlinked path v = (Server.Names.unlink P path v).1

  -- Unlink of a local file takes the descriptors of its path out of the table.
  unlink_unregisters :
      (path : Bytes) (v : Server P)
      → P.exists v.fs (local_path v.md_manager path) ≡ true
      → v.lf_exporter.locked ≡ false
      → (unlinked path v).md_manager ≡ (Manager.unregister P path v.md_manager v.fs).0
  unfolding Server.Names.unlink Exporter.unregister
  unlink_unregisters path v there u = ground (arith, there, u)

  unlink_unlocked :
      (path : Bytes) (v : Server P)
      → v.lf_exporter.locked ≡ false
      → (unlinked path v).lf_exporter.locked ≡ false
  unfolding Server.Names.unlink Exporter.unregister
  unlink_unlocked path v u = ground (arith, u)

  paths_unregister :
      (path q : Bytes) (m : Manager) (s : P.State)
      → local_path (Manager.unregister P path m s).0 q ≡ local_path m q
  unfolding Manager.unregister local_path
  paths_unregister path q m s = ground arith

module _ (P : Posix) (fuel : ℕ) (junk : Junk) (N : Network)
    (server_at : N.World → Bytes → ℕ → Option (Server P)) (D : Delivers P fuel junk N server_at)
    (content : P.State → Bytes → Option Bytes) (names : P.State → ℕ → Option Bytes)
    (K : KeepsData P content names) where
  -- With the mutexes free, and the calls on files as documented: after Unlink of a local file, which a
  -- client has open, its server has no descriptor under its path. When Create of another file at
  -- the same server then gets the same number, which is closed, and pwrite writes `n` of the bytes,
  -- fewer than 2 ^ 31, a Write of the file that was unlinked reports `n`, and these bytes are the data
  -- of the other file.
  pub write_reused :
      (file : File) (path bs : Bytes) (flags mode n : ℕ) (c : Client N) (info : ServerInfo)
      (v : Server P) (s1 s2 : P.State)
      → get_info c.select_server path ≡ some info
      → file.bb_host ≡ info.host
      → file.bb_port ≡ to_u16 info.port
      → P.exists v.fs (local_path v.md_manager file.path) ≡ true
      → v.lf_exporter.locked ≡ false
      → Ready P fuel junk N server_at D info.host (to_u16 info.port) (unlinked P file.path v) c
      → flags < 2 ^ 31
      → mode < 2 ^ 32
      → file.fd_org < 2 ^ 31
      → n < 2 ^ 31
      → P.exists (unlinked P file.path v).fs (local_path v.md_manager path) ≡ false
      → P.open_file_mode (local_path v.md_manager path) flags mode (unlinked P file.path v).fs
        ≡ (ok file.fd_org, s1)
      → P.pwrite file.fd_org bs (pos 0) s1 ≡ (ok n, s2)
      → let creating = Files.create N path (pos flags) mode c in
        let writing = Files.write N file bs (pos 0) creating.1 in
        (holds (unlinked P file.path v).md_manager file.path file.fd_org ≡ false)
        × (creating.0 ≡ ended (pos 0, some (file_of N path info file.fd_org)))
        × (writing.0 ≡ ended (pos 0, pos n))
        × (w : Server P) × (server_at writing.1.world file.bb_host file.bb_port ≡ some w)
        × (content w.fs (local_path v.md_manager path) ≡ some (splice [] 0 (take n bs)))
  write_reused file path bs flags mode n c info v s1 s2 i host port there u r fl mo fits small new
        made put =
      let fd = file.fd_org in
      let v1 = unlinked P file.path v in
      let w : Server P = record (created P fuel junk path fd s1 v1) { fs = s2 } in
      let p = local_path v.md_manager path in
      let same : local_path v1.md_manager path ≡ p =
        rw (unlink_unregisters P file.path v there u)
          (paths_unregister P file.path path v.md_manager v.fs) in
      let (made_file, r1) =
        create_remotely P fuel junk N server_at D path flags mode fd c info v1 s1 i r fl mo
          (unlink_unlocked P file.path v u) (rw same made) in
      let (wrote, r2) =
        write_remotely P fuel junk N server_at D file bs 0 n
          (Files.create N path (pos flags) mode c).1 (created P fuel junk path fd s1 v1) s2
          (rw (host, port) r1) fits (omega arith) small put in
      (
        rw (unlink_unregisters P file.path v there u) (
            ground (
              arith,
              holds-unregister P file.path file.path fd v.md_manager v.fs,
              eqb_iff file.path file.path,
            )),
        made_file,
        wrote,
        w,
        r2.server,
        K.content-pwrite s1 s2 p [] bs fd 0 n (K.names-open_file_mode v1.fs s1 p flags mode fd made)
            (K.content-open_file_mode v1.fs s1 p flags mode fd new made) put,
      )
