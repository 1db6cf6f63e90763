-- ===== src/Client/Files.antt =====
-- The client's operations on open files and directories in src/cbb/burst_buffer_client.cc.
use cbb.Prelude.{ℕ, ◌+◌, ◌*◌, ◌^◌, ℤ, pos, negsuc, List, [], ◌∷◌, Option, none, some}
use cbb.Text.{Bytes}
use cbb.Common.{Error, cbb_success, ReadDirType, dir_local, dir_secondary, dir_all}
use cbb.StdMap.{Map, lookup, assign}
use cbb.Server.ReadDir.{Listed}
use cbb.SelectServer.{ServerInfo}
use cbb.Client.{
  Method, Param, num, text, raw, Request, Response, Network, M, ended, pure, ◌>>=◌, ◌>>◌,
  get_burst_buffer, client_call, call_all, code_at, to_u16,
}

-- struct File
pub record File : Type 0 where
  pub path : Bytes
  pub bb_host : Bytes
  pub bb_port : ℕ
  pub fd_org : ℕ
  pub fd : ℕ

-- kDirLocal, kDirSecondary, kDirAll
abbrev pub type_code : ReadDirType → ℤ
type_code dir_local = pos 1
type_code dir_secondary = pos 2
type_code dir_all = pos 3

module _ (N : Network) where
  -- ((uint64_t)addr_to_binary(host) << 32) | fd: the two do not overlap, since fd is an int.
  unfoldable pub handle : Bytes → ℕ → ℕ
  handle host fd = N.addr_to_binary host * 2 ^ 32 + fd

  -- What Open and Create store of a reply: the file, if the descriptor is not negative.
  abbrev opened : Bytes → Bytes → ℕ → ℤ → Error × Option File
  opened path host port (pos fd) = (
    cbb_success,
    some (record { path = path; bb_host = host; bb_port = port; fd_org = fd; fd = handle host fd }),
  )
  opened path host port (negsuc e) = (negsuc e, none)

  -- StartPrevFileRead; the thread that it starts is Prefetch.thread_call.
  unfoldable pub start_prev_file_read : Bytes → M N (Unit {0})
  start_prev_file_read path c =
      (ended tt, record c { prev_read_dir = N.parent_path path; target_filename = N.filename path })

  unfoldable pub open_file : Bytes → ℤ → M N (Error × Option File)
  unfolding get_burst_buffer handle start_prev_file_read
  open_file path flags = do
    (host, port) ← get_burst_buffer N path
    r ←
        client_call N host port
          (record { method = Method.open_file; params = text path ∷ num flags ∷ [] })
    elim r.code [
      | negsuc e ↦ pure (negsuc e, none)
      | pos fd ↦ do start_prev_file_read path; pure (opened path host port (pos fd))
    ]

  unfoldable pub create : Bytes → ℤ → ℕ → M N (Error × Option File)
  unfolding get_burst_buffer handle
  create path flags mode = do
    (host, port) ← get_burst_buffer N path
    r ←
        client_call N host port
          (record { method = Method.create; params = text path ∷ num flags ∷ num (pos mode) ∷ [] })
    pure (opened path host port r.code)

  -- A call on an open file, to the server that opened it.
  abbrev call_file : File → Method → List Param → M N Response
  call_file file method more =
      client_call N file.bb_host file.bb_port
        (record { method = method; params = text file.path ∷ num (pos file.fd_org) ∷ more })

  -- Read: the error, and the size with the bytes.
  unfoldable pub read : File → ℕ → ℤ → M N (Error × ℤ × Bytes)
  read file size offset = do
    r ← call_file file Method.read (num (pos size) ∷ num offset ∷ [])
    elim r.code [
      | negsuc e ↦ pure (negsuc e, pos 0, [])
      | pos ssize ↦ pure (cbb_success, pos ssize, r.data_text)
    ]

  -- Write: the error and the size.
  unfoldable pub write : File → Bytes → ℤ → M N (Error × ℤ)
  write file buf offset = do
    r ← call_file file Method.write (num offset ∷ raw buf ∷ [])
    elim r.code [ negsuc e ↦ pure (negsuc e, pos 0) | pos ssize ↦ pure (cbb_success, pos ssize) ]

  unfoldable pub flush : File → M N Error
  flush file = do r ← call_file file Method.flush []; pure r.code

  unfoldable pub release : File → M N Error
  release file = do r ← call_file file Method.release []; pure r.code

  unfoldable pub fsync : File → ℤ → M N Error
  fsync file datasync = do r ← call_file file Method.fsync (num datasync ∷ []); pure r.code

  unfoldable pub ftruncate : File → ℤ → M N Error
  ftruncate file size = do r ← call_file file Method.ftruncate (num size ∷ []); pure r.code

  -- FSyncDir sends kFSync, with no descriptor.
  unfoldable pub fsync_dir : Bytes → ℤ → Error → M N Error
  unfolding call_all
  fsync_dir path datasync junk =
      call_all N (record { method = Method.fsync; params = text path ∷ num datasync ∷ [] }) junk

  -- Lock sends no command.
  unfoldable pub lock : Bytes → File → M N Error
  unfolding code_at
  lock path file =
      code_at N path
        (record { method = Method.lock; params = text path ∷ num (pos file.fd_org) ∷ [] })

  -- map.insert(first, last): the first of a name stays.
  unfoldable pub insert_range : Map Listed → Map Listed → Map Listed
  unfolding lookup assign
  insert_range file_stats [] = file_stats
  insert_range file_stats ((name, stat) ∷ more) =
      insert_range
        (elim (lookup name file_stats) [
          | none ↦ assign name stat file_stats
          | some old ↦ file_stats
        ])
        more

  -- The loop of ReadDir over the servers.
  unfoldable pub read_dir_each :
      List ServerInfo → Request → Error → Map Listed → M N (Error × Map Listed)
  unfolding insert_range
  read_dir_each [] req error file_stats = pure (error, file_stats)
  read_dir_each (info ∷ servers) req error file_stats = do
    r ← client_call N info.host (to_u16 info.port) req
    read_dir_each servers req r.code (insert_range file_stats r.file_stats)

  unfoldable pub read_dir : Bytes → ℤ → ReadDirType → Error → M N (Error × Map Listed)
  unfolding read_dir_each
  read_dir path offset type junk c =
      read_dir_each c.select_server.server_list
        (record {
          method = Method.read_dir;
          params = text path ∷ num offset ∷ num (type_code type) ∷ [];
        })
        junk [] c
