-- ===== src/System/Restore.antt =====
-- The way of an exported file back: Open and Read of src/cbb/burst_buffer_client.cc, with the handlers of
-- src/cbb/burst_buffer.cc and the copy of src/cbb/meta_data_manager.cc from the secondary storage.
use cbb.Prelude.{
  length-take_le, ap, ◌∙◌, ℕ, ◌≡◌, ◌<◌, ◌^◌, true, false, pos, some, Option, arith, refl, length,
  take, drop,
}
use cbb.Text.{Bytes}
use cbb.Text.Find.{eqb_iff}
use cbb.Common.{ok}
use cbb.Posix.{Posix, IsLawful}
use cbb.Posix.Data.{KeepsData}
use cbb.Manager.{local_path, secondary_path, register}
use cbb.Manager
use cbb.Server
use cbb.Server.{Server, result}
use cbb.FileControl.{write_flag}
use cbb.Client.{Network, Client, ended, get_burst_buffer, to_u16}
use cbb.Client.Files
use cbb.Client.Files.{start_prev_file_read}
use cbb.SelectServer.{get_info, ServerInfo}
use cbb.Dispatch.Handlers.{Junk}
use cbb.System.{Delivers}
use cbb.System.Calls.{sent_to}
use cbb.System.Data.{Ready, client_call-Ready, read_remotely}
use cbb.System.Files.{open_dispatched}
use cbb.System.NewFile.{file_of}

take-fits : (n : ℕ) (bs : Bytes) → n < 2 ^ 31 → length (take n bs) < 2 ^ 31
take-fits n bs small = omega (arith, length-take_le n bs, small)

module _ (P : Posix) where
  -- The server after it opened a file.
  abbrev registered : Bytes → ℕ → P.State → Server P → Server P
  registered path fd s v = record v { md_manager = register path fd v.md_manager; fs = s }

  -- A file that is only on the secondary storage is copied, and then opened.
  open_file_restores :
      (path : Bytes) (fd n : ℕ) (v : Server P) (s1 s2 : P.State)
      → P.exists v.fs (secondary_path v.md_manager path) ≡ true
      → P.exists v.fs (local_path v.md_manager path) ≡ false
      → P.copy_file_overwrite (secondary_path v.md_manager path) (local_path v.md_manager path) v.fs
        ≡ (ok n, s1)
      → P.open_file (local_path v.md_manager path) 0 s1 ≡ (ok fd, s2)
      → Server.Files.open_file P path 0 v ≡ (result (pos fd), registered path fd s2 v)
  unfolding Server.Files.open_file Server.Files.open_registered Manager.open_file
      Manager.copy_secondary_to_local Manager.open_local Manager.exists_on_local
      Manager.exists_on_secondary cbb.FileControl.open_file write_flag
  open_file_restores path fd n v s1 s2 far near copied opened =
      ground (arith, far, near, copied, opened)

module _ (P : Posix) (fuel : ℕ) (junk : Junk) (N : Network)
    (server_at : N.World → Bytes → ℕ → Option (Server P))
    (D : Delivers P fuel junk N server_at) where
  -- The client after Open of a file.
  abbrev after_open : Bytes → Client N → Client N
  after_open path c = record c {
    prev_read_dir = N.parent_path path;
    target_filename = N.filename path;
  }

  -- Open where its server opens the file, with the server afterwards.
  open_file-Ready :
      (path : Bytes) (fd : ℕ) (c : Client N) (info : ServerInfo) (v w : Server P)
      → get_info c.select_server path ≡ some info
      → Ready P fuel junk N server_at D info.host (to_u16 info.port) v c
      → Server.Files.open_file P path 0 v ≡ (result (pos fd), w)
      → let r = Files.open_file N path (pos 0) c in
        (r.0 ≡ ended (pos 0, some (file_of N path info fd)))
        × Ready P fuel junk N server_at D info.host (to_u16 info.port) w r.1
  unfolding Files.open_file get_burst_buffer start_prev_file_read
  open_file-Ready path fd c info v w i r opens =
      let ran = open_dispatched P fuel junk path 0 v (pos fd) (omega arith) (ap (λ o. o.0) opens) in
      let (done, after) =
        client_call-Ready P fuel junk N server_at D info.host (to_u16 info.port) _ c v w _ r
          (rw (ap (λ o. o.1) opens) at ran) in
      let whole : Files.open_file N path (pos 0) c ≡ (
        ended (pos 0, some (file_of N path info fd)),
        after_open path (sent_to N info.host (to_u16 info.port) _ c),
      ) =
        ground (arith, done, i) in
      rw whole (refl, record { free = after.free; server = after.server })

  module _ (content : P.State → Bytes → Option Bytes) (L : IsLawful P content)
      (names : P.State → ℕ → Option Bytes) (K : KeepsData P content names) where
    -- With the mutex free, and the calls on files as documented: when a path is on the secondary
    -- storage of its server only, and the server can copy it and open the copy to read, Open gives an
    -- open file, and a Read of it of less than 2 ^ 31 bytes, if pread succeeds and the server has the
    -- memory for them, brings back the part of the data on the secondary storage that the size and
    -- the offset name; the local storage then has all these data.
    pub read-open_file :
        (path whole got : Bytes) (fd size offset n : ℕ) (c : Client N) (info : ServerInfo)
        (v : Server P) (s1 s2 : P.State)
        → get_info c.select_server path ≡ some info
        → Ready P fuel junk N server_at D info.host (to_u16 info.port) v c
        → fd < 2 ^ 31
        → size < 2 ^ 31
        → offset < 2 ^ 63
        → P.exists v.fs (secondary_path v.md_manager path) ≡ true
        → P.exists v.fs (local_path v.md_manager path) ≡ false
        → content v.fs (secondary_path v.md_manager path) ≡ some whole
        → P.copy_file_overwrite
            (secondary_path v.md_manager path)
            (local_path v.md_manager path)
            v.fs
          ≡ (ok n, s1)
        → P.open_file (local_path v.md_manager path) 0 s1 ≡ (ok fd, s2)
        → P.zone_malloc s2 size ≡ true
        → P.pread fd size (pos offset) s2 ≡ ok got
        → let file = file_of N path info fd in
          let part = take size (drop offset whole) in
          let opening = Files.open_file N path (pos 0) c in
          let reading = Files.read N file size (pos offset) opening.1 in
          (opening.0 ≡ ended (pos 0, some file))
          × (reading.0 ≡ ended (pos 0, pos (length part), part))
          × (w : Server P) × (server_at reading.1.world info.host (to_u16 info.port) ≡ some w)
          × (content w.fs (local_path v.md_manager path) ≡ some whole)
    read-open_file path whole got fd size offset n c info v s1 s2 i r fits small start far near
          holds copied opened room gets =
        let p = local_path v.md_manager path in
        let w = registered P path fd s2 v in
        let (gave_file, r1) =
          open_file-Ready path fd c info v w i r
            (open_file_restores P path fd n v s1 s2 far near copied opened) in
        let back : content s2 p ≡ some whole =
          K.content-open_file s1 s2 p p fd opened
          ∙ L.content-copy_file_overwrite v.fs s1 _ p n copied p
          ∙ ground (arith, eqb_iff p p, holds) in
        let same =
          K.content-pread s2 p whole got fd size offset (K.names-open_file s1 s2 p fd opened) back
            gets in
        let (read, r2) =
          read_remotely P fuel junk N server_at D (file_of N path info fd) got size offset
            (Files.open_file N path (pos 0) c).1 w r1 fits (omega arith) start room
            (rw same (take-fits size (drop offset whole) small)) gets in
        (gave_file, rw same at read, w, r2.server, back)
