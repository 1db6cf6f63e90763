-- ===== src/Examples/Servers.antt =====
-- Operations of a client that reach one or all of two servers, of files in memory with attributes.
use cbb.Prelude.{
  true, ◌≡◌, pos, negsuc, ℕ, Option, some, none, refl, arith, ◌∷◌, [], if◌then◌else◌, false,
}
use cbb.Text.{Bytes}
use cbb.Common.{bytes, ok, fail, FileStat}
use cbb.Posix.{Posix, IsLawful}
use cbb.Posix.Memory.{Disk, memory, text_at, memory-IsLawful}
use cbb.Manager.{local_path, secondary_path}
use cbb.Server.{Server, result}
use cbb.Server.Names
use cbb.SelectServer.{ServerInfo}
use cbb.Client.{Network, Client, ended, aborted}
use cbb.Client.Names.{get_attr_ex, rename, mk_dir, Attr}
use cbb.Client.Files.{fsync_dir}
use cbb.Dispatch.Handlers.{dispatch, code_reply}
use cbb.System.{Delivers, is_at, rpc_result}
use cbb.System.Servers.{mk_dir_last, fsync_dir_aborts}
use cbb.System.Renaming.{rename_hides_loss, rename_request}
use cbb.Examples.System.{junk, roots, roots-IsDisjoint}

abbrev stat : FileStat
stat = record junk.file_stat { st_mode = 0o100644 }

abbrev posix : Posix
posix = record memory {
  lstat = λ s p. if memory.exists s p then ok stat else fail 1;
  mkdir = λ p mode s. if s.full then (fail 27, s) else (ok 0, memory.write_text p (b'/' ∷ []) s);
}

posix-IsLawful : IsLawful posix text_at
posix-IsLawful = record {
  content-fs_remove = memory-IsLawful.content-fs_remove;
  exists-fs_remove = memory-IsLawful.exists-fs_remove;
  copy_file_existing = memory-IsLawful.copy_file_existing;
  content-copy_file_overwrite = memory-IsLawful.content-copy_file_overwrite;
  exists-copy_file_overwrite = memory-IsLawful.exists-copy_file_overwrite;
  last_write_time-copy_file_overwrite = memory-IsLawful.last_write_time-copy_file_overwrite;
}

abbrev Servers : Type 0
Servers = Bytes → ℕ → Option (Server posix)

abbrev network : Network
network = record {
  World = Servers;
  send = λ host port req w. elim (w host port) [
    | none ↦ (cbb.Client.timeout_error, w)
    | some v ↦ (
      rpc_result (dispatch posix 3 junk req v).0,
      λ h p. if is_at host port h p then some (dispatch posix 3 junk req v).1 else w h p,
    )
  ];
  addr_to_binary = λ host. 7;
  parent_path = λ path. path;
  filename = λ path. path;
}

network-Delivers : Delivers posix 3 junk network (λ w. w)
network-Delivers = record {
  answers = λ host port req w v e. rw e refl;
  server_at-send = λ host host' port port' req w v e. rw e refl;
}

-- A local file `f`, and a file on the secondary storage under the name `g`.
abbrev disk : Disk
disk = record {
  files =
      (bytes "l/f", record { text = bytes "new"; time = 5 })
      ∷ (bytes "r/g", record { text = bytes "old"; time = 3 })
      ∷ [];
  clock = 7;
  next = 3;
  full = false;
  opened = [];
}

abbrev server : Server posix
server = record {
  md_manager = roots;
  lf_exporter = record { local_files = []; locked = false };
  fs = disk;
}

-- The same where the disk is full.
abbrev full : Server posix
full = record server { fs = record disk { full = true } }

abbrev a : ServerInfo
a = record { host = bytes "a"; port = pos 9090 }

abbrev b : ServerInfo
b = record { host = bytes "b"; port = pos 9090 }

abbrev client : Client network
client = record {
  world = λ host port.
      if is_at (bytes "a") 9090 host port
      then some server
      else if is_at (bytes "b") 9090 host port
      then some full
      else none;
  select_server = record {
    hash_calc = record { key_bits = 2; calc_hash = λ path. 1 };
    chash = record { value = 1; info = a } ∷ [];
    server_list = b ∷ a ∷ [];
  };
  is_locked = false;
  prev_read_dir = [];
  target_filename = [];
}

mk_dir_last_example :
    let r = mk_dir network (bytes "/d") 493 (pos 77) client in
    (r.0 ≡ ended (pos 0))
    × (r.1.world (bytes "a") 9090 ≡ some (Names.mk_dir posix (bytes "/d") 493 server).1)
unfolding cbb.Text.eqb Names.mk_dir cbb.StdMap.lookup local_path
mk_dir_last_example =
    mk_dir_last posix 3 junk network (λ w. w) network-Delivers (bytes "/d") 493 (omega arith)
      (pos 77) (pos 0) client (b ∷ []) a server refl refl ((full, refl), tt) (refl, tt) refl refl

fsync_dir_aborts_example :
    let r = fsync_dir network (bytes "/d") (pos 0) (pos 77) client in
    (r.0 ≡ aborted) × (r.1.world (bytes "a") 9090 ≡ client.world (bytes "a") 9090)
unfolding cbb.Text.eqb
fsync_dir_aborts_example =
    fsync_dir_aborts posix 3 junk network (λ w. w) network-Delivers (bytes "/d") (pos 0) (pos 77)
      client b (a ∷ []) full (bytes "a") 9090 refl refl refl

abbrev attr : Attr
attr = record { error = pos 0; file_stat = stat; link_path = [] }

rename_hides_loss_example :
    let r = rename network (bytes "f") (bytes "g") client in
    (r.0 ≡ ended (pos 0))
    × ((dispatch posix 3 junk (rename_request (bytes "f") (bytes "g")) server).0
        ≡ result (code_reply posix 3 junk (negsuc 0)))
    × (w : Server posix) × (r.1.world (bytes "a") 9090 ≡ some w)
    × (text_at w.fs (local_path roots (bytes "f")) ≡ none)
    × (text_at w.fs (secondary_path roots (bytes "f")) ≡ none)
    × (text_at w.fs (secondary_path roots (bytes "g")) ≡ some (bytes "old"))
unfolding get_attr_ex cbb.Client.client_call cbb.Text.eqb dispatch cbb.Server.Attributes.get_attr
    cbb.StdMap.lookup local_path secondary_path
rename_hides_loss_example =
    rename_hides_loss posix 3 junk network (λ w. w) network-Delivers text_at posix-IsLawful
      (bytes "f") (bytes "g") (bytes "new") client (get_attr_ex network (bytes "f") client).1 attr a
      server refl refl refl (record { free = refl; server = refl }) roots-IsDisjoint refl refl refl
      refl refl refl (ground arith)
