-- ===== src/Examples/Remote.antt =====
-- The client of src/cbb/burst_buffer_client.cc against fixed answers.
use cbb.Client.Retry.{client_call_transport}
use cbb.Wrapper.Handles.{cbfs_open_keeps}
use cbb.Dispatch.{accepts}
use cbb.Wrapper.{cbfs_flush, cbfs_open, find_file, Mount}
use cbb.Text.{eqb, Bytes}
use cbb.SelectServer.{get_info, SelectServer}
use cbb.Common.{StatVfs, bytes, FileStat}
use cbb.Client.{
  remote_error, blocked, text, raised, ended, timeout_error, answered, Response, Method, Client,
  client_call, Request, Network,
}
use cbb.Prelude.{none, ◌+◌, ◌^◌, ℕ, ◌∷◌, if◌then◌else◌, false, ◌≡◌, ℕ, pos, length, [], ℤ, refl}
use cbb.Client.Files.{handle, File, open_file, flush}
use Prim.Native.Nat.{min}

abbrev stat : FileStat
stat = record {
  st_dev = 0;
  st_ino = 0;
  st_mode = 0o100644;
  st_nlink = 1;
  st_uid = 0;
  st_gid = 0;
  st_rdev = 0;
  st_size = 0;
  st_blksize = 0;
  st_blocks = 0;
  st_atim = record { tv_sec = pos 0; tv_nsec = pos 0 };
  st_mtim = record { tv_sec = pos 0; tv_nsec = pos 0 };
  st_ctim = record { tv_sec = pos 0; tv_nsec = pos 0 };
}

abbrev stat_vfs : StatVfs
stat_vfs = record {
  f_bsize = 0;
  f_frsize = 0;
  f_blocks = 0;
  f_bfree = 0;
  f_bavail = 0;
  f_files = 0;
  f_ffree = 0;
  f_favail = 0;
  f_fsid = 0;
  f_flag = 0;
  f_namemax = 0;
}

abbrev reply : ℤ → Response
reply code = record {
  code = code;
  file_stat = stat;
  data_text = [];
  file_stats = [];
  stat_vfs = stat_vfs;
}

-- Server `a` answers 3 and server `b` 4, with the attributes of a regular file; a request that does
-- not convert is refused. The world counts the requests.
abbrev code_of : Bytes → ℕ → Request → ℤ
code_of host port req = if eqb host (bytes "a") then pos 3 else pos 4

abbrev fixed : Network
fixed = record {
  World = ℕ;
  send = λ host port req w.
      (if accepts req then answered (reply (code_of host port req)) else remote_error, w + 1);
  addr_to_binary = λ host. length host;
  parent_path = λ path. path;
  filename = λ path. path;
}

-- No server answers.
abbrev silent : Network
silent = record fixed { send = λ host port req w. (timeout_error, w + 1) }

abbrev servers : SelectServer
servers = record {
  hash_calc = record { key_bits = 2; calc_hash = λ path. min (length path) 3 };
  chash =
      record { value = 1; info = record { host = bytes "a"; port = pos 9090 } }
      ∷ record { value = 3; info = record { host = bytes "b"; port = pos 9090 } }
      ∷ [];
  server_list =
      record { host = bytes "a"; port = pos 9090 }
      ∷ record { host = bytes "b"; port = pos 9090 }
      ∷ [];
}

abbrev client : (N : Network) → N.World → Client N
client N w = record {
  world = w;
  select_server = servers;
  is_locked = false;
  prev_read_dir = [];
  target_filename = [];
}

abbrev request : Request
request = record { method = Method.get_attr; params = text (bytes "/f") ∷ [] }

client_call_transport_example :
    let r = client_call silent (bytes "a") 9090 request (client silent 0) in
    (r.0 ≡ raised)
    × (r.1.world ≡ 1)
    × (client_call silent (bytes "b") 9090 request r.1 ≡ (blocked, r.1))
client_call_transport_example =
    client_call_transport silent (bytes "a") (bytes "b") 9090 9090 request request (client silent 0)
      refl refl

abbrev file : File
file = record { path = bytes "f"; bb_host = bytes "a"; bb_port = 9090; fd_org = 3; fd = 2 ^ 32 + 3 }

-- Open remembers the directory and the name of the file.
abbrev client_after : Client fixed
client_after = record (client fixed 1) { prev_read_dir = bytes "f"; target_filename = bytes "f" }

abbrev mount : Mount fixed
mount = record { client = client fixed 0; files = [] }

cbfs_open_keeps_example :
    let r = cbfs_open fixed (bytes "f") (pos 0) mount in
    (r.0 ≡ ended (pos 0, 2 ^ 32 + 3))
    × ((blank : File)
        → (cbfs_flush fixed blank (2 ^ 32 + 3) r.1).0 ≡ (flush fixed file client_after).0)
    × (find_file 5 r.1.files ≡ none)
unfolding open_file get_info client_call eqb accepts handle find_file
cbfs_open_keeps_example = cbfs_open_keeps fixed (bytes "f") (pos 0) mount file client_after 5 refl
