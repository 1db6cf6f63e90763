-- ===== src/System/Rewrite.antt =====
-- The way of an open file from the client of src/cbb/burst_buffer_client.cc over the local storage of
-- its server to the secondary one.
use cbb.Prelude.{◌∙◌, ℕ, ◌≡◌, ◌<◌, ◌^◌, true, false, pos, some, Option, sym, take}
use cbb.Text.{Bytes}
use cbb.Common.{ok}
use cbb.Posix.{IsLawful, Posix}
use cbb.Posix.Data.{splice, KeepsData}
use cbb.Manager
use cbb.Manager.{local_path, secondary_path}
use cbb.Exporter.CheckFile.{IsDisjoint, is_current}
use cbb.Lifetime.Managers.{release-md_manager}
use cbb.Server
use cbb.Server.{Server}
use cbb.Client.{client_call, Response, Network, Client, ended}
use cbb.Client.Files
use cbb.Client.Files.{File}
use cbb.Dispatch.Handlers.{Junk}
use cbb.System.{Delivers}
use cbb.System.Data.{write_remotely, Ready}
use cbb.System.Export.{client_call_exports, export_request}
use cbb.System.NewFile.{release-Ready, release_state, paths_unregister_fd}

-- The client after it wrote a file and released it.
abbrev pub released_after : (N : Network) → File → Bytes → ℕ → Client N → Client N
released_after N file bs offset c =
    (Files.release N file (Files.write N file bs (pos offset) c).1).1

module _ (P : Posix) (fuel : ℕ) (junk : Junk) (N : Network)
    (server_at : N.World → Bytes → ℕ → Option (Server P)) (D : Delivers P fuel junk N server_at)
    (content : P.State → Bytes → Option Bytes) (L : IsLawful P content)
    (names : P.State → ℕ → Option Bytes) (K : KeepsData P content names) where
  released_paths :
      (path : Bytes) (fd : ℕ) (v : Server P) (q : Bytes)
      → let w = (Server.Files.release P path fd v).1 in
        (local_path w.md_manager q ≡ local_path v.md_manager q)
        × (secondary_path w.md_manager q ≡ secondary_path v.md_manager q)
  unfolding Manager.close
  released_paths path fd v q =
      rw (release-md_manager P path fd v) (paths_unregister_fd path q fd v.md_manager)

  -- With disjoint roots, both mutexes free, the calls on files as documented, and an open file whose
  -- descriptor leads to its local path: when pwrite writes `n` of the bytes, fewer than 2 ^ 31, the
  -- time of the local file can be read after close, and no copy is then on the secondary storage that
  -- is not older, Write reports `n`; and when the export that follows Release is answered, both
  -- storages of the server have the former data with these bytes written over them.
  pub export-release-write :
      (file : File) (bs old : Bytes) (offset n time : ℕ) (c : Client N) (v : Server P) (t : P.State)
      (a : Response)
      → Ready P fuel junk N server_at D file.bb_host file.bb_port v c
      → IsDisjoint v.md_manager
      → v.lf_exporter.locked ≡ false
      → file.fd_org < 2 ^ 31
      → offset < 2 ^ 63
      → n < 2 ^ 31
      → names v.fs file.fd_org ≡ some (local_path v.md_manager file.path)
      → content v.fs (local_path v.md_manager file.path) ≡ some old
      → P.exists v.fs (local_path v.md_manager file.path) ≡ true
      → P.pwrite file.fd_org bs (pos offset) v.fs ≡ (ok n, t)
      → P.last_write_time (P.close file.fd_org t).1 (local_path v.md_manager file.path) ≡ ok time
      → is_current P
          (local_path v.md_manager file.path)
          (secondary_path v.md_manager file.path)
          (P.close file.fd_org t).1
        ≡ false
      → (client_call N file.bb_host file.bb_port export_request
          (released_after N file bs offset c)).0
        ≡ ended a
      → let last =
          client_call N file.bb_host file.bb_port export_request
            (released_after N file bs offset c) in
        let new = splice old offset (take n bs) in
        ((Files.write N file bs (pos offset) c).0 ≡ ended (pos 0, pos n))
        × (w : Server P) × (server_at last.1.world file.bb_host file.bb_port ≡ some w)
        × (content w.fs (secondary_path v.md_manager file.path) ≡ some new)
        × (content w.fs (local_path v.md_manager file.path) ≡ some new)
  export-release-write file bs old offset n time c v t a r apart u fits o small name has there put
        timed behind answered =
      let fd = file.fd_org in
      let path = file.path in
      let near = local_path v.md_manager path in
      let v2 : Server P = record v { fs = t } in
      let v3 = (Server.Files.release P path fd v2).1 in
      let paths = released_paths path fd v2 in
      let state = release_state P fuel junk path fd v2 in
      let (wrote, r2) =
        write_remotely P fuel junk N server_at D file bs offset n c v t r fits o small put in
      let c2 = (Files.write N file bs (pos offset) c).1 in
      let stays =
        K.exists-close t fd near ∙ K.exists-pwrite v.fs t bs near fd offset n put ∙ there in
      let text =
        K.content-close t fd near ∙ K.content-pwrite v.fs t near old bs fd offset n name has put in
      let (r3, registered) =
        release-Ready P fuel junk N server_at D file c2 v2 time r2 fits u stays timed in
      let (w, at, second, first, _) =
        client_call_exports P fuel junk N server_at D content L v3
          (λ x y e. apart x y (sym (paths x).0 ∙ e ∙ (paths y).1)) file.bb_host file.bb_port
          (Files.release N file c2).1 a path time r3.free r3.server answered registered
          (rw (state, (paths path).0) stays) in
      (
        wrote,
        w,
        at,
        (rw ((paths path).0, (paths path).1, state, behind) at second) ∙ text,
        (rw ((paths path).0, state) at first) ∙ text,
      )
