-- ===== src/Examples/System.antt =====
-- A client and a server of files in memory, with a network that delivers each request at once.
use cbb.Prelude.{
  ◌*◌, true, ℕ, ◌+◌, ◌^◌, ◌≡◌, pos, false, [], ◌∷◌, Option, none, some, if◌then◌else◌, arith, refl,
}
use cbb.Text.{Bytes, eqb}
use cbb.Common.{bytes}
use cbb.StdMap.{lookup, assign}
use cbb.Posix.Memory.{text_at, memory-IsLawful, memory, Disk}
use cbb.Manager.{secondary_path, Manager, local_path}
use cbb.Manager.Table.{holds}
use cbb.Server.{Server}
use cbb.SelectServer.{SelectServer, get_info}
use cbb.Dispatch.Handlers.{Junk, dispatch, code_reply}
use cbb.Client.{Request, Method, text, num, Network, Client, ended, timeout_error, client_call}
use cbb.Client.Files
use cbb.Client.Files.{File}
use cbb.System.{Delivers, is_at, rpc_result}
use cbb.System.Export.{export_request, client_call_exports}
use cbb.Exporter.{check_local_files}
use cbb.Exporter.CheckFile.{IsDisjoint}
use cbb.System.Files.{open_remotely}

abbrev pub junk : Junk
junk = record {
  file_stat = record {
    st_dev = 0;
    st_ino = 0;
    st_mode = 0;
    st_nlink = 0;
    st_uid = 0;
    st_gid = 0;
    st_rdev = 0;
    st_size = 0;
    st_blksize = 0;
    st_blocks = 0;
    st_atim = record { tv_sec = pos 0; tv_nsec = pos 0 };
    st_mtim = record { tv_sec = pos 0; tv_nsec = pos 0 };
    st_ctim = record { tv_sec = pos 0; tv_nsec = pos 0 };
  };
  stat_vfs = record {
    f_bsize = 0;
    f_frsize = 0;
    f_blocks = 0;
    f_bfree = 0;
    f_bavail = 0;
    f_files = 0;
    f_ffree = 0;
    f_favail = 0;
    f_fsid = 0;
    f_flag = 0;
    f_namemax = 0;
  };
}

-- A world has the servers that run at each address; a request to another address times out.
abbrev pub Servers : Type 0
Servers = Bytes → ℕ → Option (Server memory)

abbrev pub network : Network
network = record {
  World = Servers;
  send = λ host port req w. elim (w host port) [
    | none ↦ (timeout_error, w)
    | some v ↦ (
      rpc_result (dispatch memory 3 junk req v).0,
      λ h p. if is_at host port h p then some (dispatch memory 3 junk req v).1 else w h p,
    )
  ];
  addr_to_binary = λ host. 7;
  parent_path = λ path. path;
  filename = λ path. path;
}

pub network-Delivers : Delivers memory 3 junk network (λ w. w)
network-Delivers = record {
  answers = λ host port req w v e. rw e refl;
  server_at-send = λ host host' port port' req w v e. rw e refl;
}

abbrev pub roots : Manager
roots = record {
  table = [];
  local_storage_root_path = bytes "l";
  secondary_storage_root_path = bytes "r";
}

abbrev pub disk : Disk
disk = record {
  files = (bytes "l/f", record { text = bytes "new"; time = 5 }) ∷ [];
  clock = 7;
  next = 3;
  full = false;
  opened = [];
}

abbrev pub server : Server memory
server = record {
  md_manager = roots;
  lf_exporter = record { local_files = []; locked = false };
  fs = disk;
}

abbrev pub world : Servers
world host port = if is_at (bytes "a") 9090 host port then some server else none

abbrev pub servers : SelectServer
servers = record {
  hash_calc = record { key_bits = 2; calc_hash = λ path. 1 };
  chash = record { value = 1; info = record { host = bytes "a"; port = pos 9090 } } ∷ [];
  server_list = record { host = bytes "a"; port = pos 9090 } ∷ [];
}

abbrev pub client : Client network
client = record {
  world = world;
  select_server = servers;
  is_locked = false;
  prev_read_dir = [];
  target_filename = [];
}

-- FSync without its third parameter.
abbrev short : Request
short = record { method = Method.fsync; params = text (bytes "f") ∷ num (pos 3) ∷ [] }

abbrev pub file : File
file = record {
  path = bytes "f";
  bb_host = bytes "a";
  bb_port = 9090;
  fd_org = 3;
  fd = 7 * 2 ^ 32 + 3;
}

open_remotely_example :
    let r = Files.open_file network (bytes "f") (pos 0) client in
    (f : File) × (w : Server memory) × (r.0 ≡ ended (pos 0, some f))
    × (f.path ≡ bytes "f")
    × (f.fd_org ≡ 3)
    × (r.1.world f.bb_host f.bb_port ≡ some w)
    × (holds w.md_manager (bytes "f") 3 ≡ true)
unfolding get_info eqb cbb.Server.Files.open_file lookup cbb.Manager.secondary_path
    cbb.Manager.open_local local_path
open_remotely_example =
    open_remotely memory 3 junk network (λ w. w) network-Delivers (bytes "f") 0 3 client
      (record { host = bytes "a"; port = pos 9090 }) server refl refl refl (omega arith) refl

pub roots-IsDisjoint : IsDisjoint roots
unfolding local_path secondary_path
roots-IsDisjoint p q h = ground arith

-- The same server when it has a file to export.
abbrev registered : Server memory
registered = record server {
  lf_exporter = record { local_files = (bytes "f", 5) ∷ []; locked = false };
}

abbrev exporting : Client network
exporting = record client {
  world = λ host port. if is_at (bytes "a") 9090 host port then some registered else none;
}

client_call_exports_example :
    let r = client_call network (bytes "a") 9090 export_request exporting in
    (w : Server memory) × (r.1.world (bytes "a") 9090 ≡ some w)
    × (text_at w.fs (secondary_path roots (bytes "f")) ≡ some (bytes "new"))
    × (text_at w.fs (local_path roots (bytes "f")) ≡ some (bytes "new"))
    × (lookup (bytes "f") w.lf_exporter.local_files ≡ some 5)
unfolding eqb dispatch check_local_files local_path secondary_path lookup assign client_call
    cbb.Server.Files.local_file_export cbb.Exporter.CheckFile.is_current
client_call_exports_example =
    client_call_exports memory 3 junk network (λ w. w) network-Delivers text_at memory-IsLawful
      registered roots-IsDisjoint (bytes "a") 9090 exporting (code_reply memory 3 junk (pos 0))
      (bytes "f") 5 refl refl refl refl refl
