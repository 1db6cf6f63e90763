-- ===== src/System/Fuse.antt =====
-- An open file from the callbacks of FUSE in src/cbfs/cbb_client_wrapper.cc over the client of
-- src/cbb/burst_buffer_client.cc to its server.
use cbb.Prelude.{
  true, ℕ, ℤ, ◌≡◌, ◌<◌, ◌≤◌, ◌^◌, false, pos, some, Option, arith, refl, length, take, [],
}
use cbb.Text.{Bytes}
use cbb.Common.{to_int32-small, ok}
use cbb.Posix.{Posix}
use cbb.Posix.Data.{KeepsData}
use cbb.Manager.{local_path}
use cbb.Server.{Server}
use cbb.Client.{Network, ended, to_u16}
use cbb.Client.Files
use cbb.Client.Files.{File, handle}
use cbb.SelectServer.{get_info, ServerInfo}
use cbb.Wrapper.{Mount, set_file, find_file, cbfs_create, cbfs_write, cbfs_read}
use cbb.Wrapper.Handles.{find_file-set_file}
use cbb.Dispatch.Handlers.{Junk}
use cbb.System.{Delivers}
use cbb.System.Data.{Ready, read-write}
use cbb.System.NewFile.{create_remotely, created, file_of}

module _ (N : Network) where
  cbfs_create_done :
      (path : Bytes) (flags : ℤ) (mode : ℕ) (m : Mount N) (file : File)
      → (Files.create N path flags mode m.client).0 ≡ ended (pos 0, some file)
      → cbfs_create N path flags mode m ≡ (
        ended (pos 0, file.fd),
        record {
          client = (Files.create N path flags mode m.client).1;
          files = set_file file.fd file m.files;
        },
      )
  unfolding cbfs_create
  cbfs_create_done path flags mode m file e = ground (arith, e)

  cbfs_write_done :
      (blank file : File) (fh n : ℕ) (bs : Bytes) (offset : ℤ) (m : Mount N)
      → find_file fh m.files ≡ some file
      → n < 2 ^ 31
      → (Files.write N file bs offset m.client).0 ≡ ended (pos 0, pos n)
      → cbfs_write N blank fh bs offset m
        ≡ (ended (pos n), record m { client = (Files.write N file bs offset m.client).1 })
  unfolding cbfs_write
  cbfs_write_done blank file fh n bs offset m found small e =
      ground (arith, found, e, to_int32-small n small)

  cbfs_read_done :
      (blank file : File) (fh size n : ℕ) (bs : Bytes) (offset : ℤ) (m : Mount N)
      → find_file fh m.files ≡ some file
      → n < 2 ^ 31
      → (Files.read N file size offset m.client).0 ≡ ended (pos 0, pos n, bs)
      → (cbfs_read N blank fh size offset m).0 ≡ ended (pos n, bs)
  unfolding cbfs_read
  cbfs_read_done blank file fh size n bs offset m found small e =
      ground (arith, found, e, to_int32-small n small)

module _ (P : Posix) (fuel : ℕ) (junk : Junk) (N : Network)
    (server_at : N.World → Bytes → ℕ → Option (Server P)) (D : Delivers P fuel junk N server_at)
    (content : P.State → Bytes → Option Bytes) (names : P.State → ℕ → Option Bytes)
    (K : KeepsData P content names) where
  -- With the mutex free, and open, pwrite, pread and descriptors as documented: when the server of a
  -- path that its local storage does not have makes the file with a descriptor, and pwrite writes `n`
  -- of the bytes, fewer than 2 ^ 31, CBFSCreate succeeds with a handle, whatever files the mount had
  -- open, CBFSWrite of this handle answers `n`, and a CBFSRead of `n` bytes of it after that, if pread
  -- succeeds and the server has the memory for them, answers `n` and gives just these bytes.
  pub cbfs_read-write-create :
      (path bs got : Bytes) (flags mode fd n : ℕ) (m : Mount N) (info : ServerInfo) (v : Server P)
      (s1 s2 : P.State) (blank : File)
      → get_info m.client.select_server path ≡ some info
      → Ready P fuel junk N server_at D info.host (to_u16 info.port) v m.client
      → v.lf_exporter.locked ≡ false
      → flags < 2 ^ 31
      → mode < 2 ^ 32
      → fd < 2 ^ 31
      → n < 2 ^ 31
      → n ≤ length bs
      → P.exists v.fs (local_path v.md_manager path) ≡ false
      → P.open_file_mode (local_path v.md_manager path) flags mode v.fs ≡ (ok fd, s1)
      → P.pwrite fd bs (pos 0) s1 ≡ (ok n, s2)
      → P.zone_malloc s2 n ≡ true
      → P.pread fd n (pos 0) s2 ≡ ok got
      → let fh = handle N info.host fd in
        let m1 = (cbfs_create N path (pos flags) mode m).1 in
        let m2 = (cbfs_write N blank fh bs (pos 0) m1).1 in
        ((cbfs_create N path (pos flags) mode m).0 ≡ ended (pos 0, fh))
        × ((cbfs_write N blank fh bs (pos 0) m1).0 ≡ ended (pos n))
        × ((cbfs_read N blank fh n (pos 0) m2).0 ≡ ended (pos n, take n bs))
  cbfs_read-write-create path bs got flags mode fd n m info v s1 s2 blank i r u fl mo fits small
        part new made put room gets =
      let p = local_path v.md_manager path in
      let file = file_of N path info fd in
      let fh = handle N info.host fd in
      let c1 = (Files.create N path (pos flags) mode m.client).1 in
      let (made_file, r1) =
        create_remotely P fuel junk N server_at D path flags mode fd m.client info v s1 i r fl mo u
          made in
      let (wrote, back) =
        read-write P fuel junk N server_at D content names K file p [] bs got 0 n c1
          (created P fuel junk path fd s1 v) s2 r1 fits (omega arith) small part
          (K.names-open_file_mode v.fs s1 p flags mode fd made)
          (K.content-open_file_mode v.fs s1 p flags mode fd new made) put room gets in
      let m1 : Mount N = record { client = c1; files = set_file fh file m.files } in
      let stored : find_file fh m1.files ≡ some file =
        ground (arith, find_file-set_file fh fh file m.files) in
      let first = cbfs_create_done N path (pos flags) mode m file made_file in
      let second = cbfs_write_done N blank file fh n bs (pos 0) m1 stored small wrote in
      let c2 = (Files.write N file bs (pos 0) c1).1 in
      let third =
        cbfs_read_done N blank file fh n n (take n bs) (pos 0) (record m1 { client = c2 }) stored
          small back in
      rw first (rw second (refl, refl, third))
