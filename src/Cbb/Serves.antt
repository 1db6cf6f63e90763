-- ===== src/Cbb/Serves.antt =====
-- From the setting file of src/cbb/cbb.cc to the server that starts.
use cbb.Prelude.{Bool, ℕ, ◌<◌, ◌≡◌, true, false, ℤ, pos, [], List, Option, none, some, arith}
use cbb.Text.{Bytes}
use cbb.Common.{bytes, ok, cbb_config}
use cbb.Posix.{Posix, Dirent}
use cbb.Manager.{local_path}
use cbb.Exporter.Found.{Entries, depth, Shows}
use cbb.Server.{Server}
use cbb.Server.Directories.{start, duplicate_dir_secondary_to_local}
use cbb.Server.Duplicated.{is_dir, Has, MakesDirs}
use cbb.Server.Duplicated.Makes.{Makes, Fits}
use cbb.Server.Duplicated.Start.{manager, Starts, start_registers}
use cbb.Settings.{Tree, Settings, load, read_server}
use cbb.Cbb.{values, serving, main, serve, options}

-- A setting file of a server, and what its keys say.
pub record IsServerFile (to_int : Bytes → Option ℤ) (tree : Tree) (settings : Settings)
    : Type 0 where
  pub host : tree (bytes "Server.host") ≡ some settings.server_host
  pub port_text : Bytes
  pub port : tree (bytes "Server.port") ≡ some port_text
  pub port_int : to_int port_text ≡ some settings.server_port
  pub thread_text : Bytes
  pub thread : tree (bytes "Server.thread") ≡ some thread_text
  pub thread_int : to_int thread_text ≡ some settings.server_thread
  pub local : tree (bytes "Server.local_strage_path") ≡ some settings.server_local_strage_path
  pub secondary :
      tree (bytes "Server.secondary_storage_path") ≡ some settings.server_secondary_storage_path

module _ (P : Posix) (fuel : ℕ) (to_int : Bytes → Option ℤ) (read_ini : Bytes → Option Tree)
    (option : Option Bytes) (tree : Tree) (settings blank : Settings)
    (F : IsServerFile to_int tree settings) where
  abbrev local_root : Bytes
  local_root = settings.server_local_strage_path

  abbrev secondary_root : Bytes
  secondary_root = settings.server_secondary_storage_path

  main_serving :
      (desc path : Bytes) (s : P.State) (v : Server P)
      → (elim option [ none ↦ cbb_config | some p ↦ p ]) ≡ path
      → read_ini path ≡ some tree
      → start P fuel local_root secondary_root s ≡ some v
      → main P fuel to_int read_ini desc (values option false) blank s
        ≡ serving v settings.server_host settings.server_port settings.server_thread
  unfolding main serve options load read_server
  main_serving desc path s v at read e =
      ground (
        arith, at, read, e, F.host, F.port, F.port_int, F.thread, F.thread_int, F.local,
        F.secondary,
      )

  -- When the setting file at the path of the command line, or else the default path, has the keys
  -- of a server, the storages that it names lie apart and have directories of finite depth for
  -- which the fuel is enough, mkdir of a new name succeeds, the local root is a directory, the
  -- local storage has nothing but directories under the names of those of the secondary one, and it
  -- shows a given tree once those are made, then main comes to serve the host, the port and the
  -- threads of the file, with a server over just these storages that has registered exactly the
  -- regular files of that tree.
  pub main-Starts :
      (told : Bytes → Bytes → Bool) (L : MakesDirs P (manager local_root secondary_root) told)
      (dirs locals : Entries) (ents : List Dirent) (desc path : Bytes) (s : P.State)
      → (elim option [ none ↦ cbb_config | some p ↦ p ]) ≡ path
      → read_ini path ≡ some tree
      → P.read_dir s secondary_root (pos 0) ≡ ok ents
      → Has P s secondary_root dirs ents
      → depth dirs < fuel
      → depth locals < fuel
      → P.is_directory s local_root ≡ true
      → Fits P (manager local_root secondary_root) told (is_dir local_root dirs) s
      → ((t : P.State)
          → duplicate_dir_secondary_to_local P fuel
              (manager local_root secondary_root)
              secondary_root
              s
            ≡ some t
          → Makes P (manager local_root secondary_root) told (is_dir local_root dirs) s t
          → let root = local_path (manager local_root secondary_root) [] in
            (found : List Dirent) × (P.read_dir t root (pos 0) ≡ ok found)
            × Shows P t root locals found)
      → (v : Server P) × (main P fuel to_int read_ini desc (values option false) blank s
          ≡ serving v settings.server_host settings.server_port settings.server_thread)
        × Starts P local_root secondary_root told L dirs locals s v
  main-Starts told L dirs locals ents desc path s at read r has deep deep' d fits shown =
      let (v, e, starts) =
        start_registers P local_root secondary_root told L dirs locals fuel ents s r has deep deep'
          d fits shown in
      (v, main_serving desc path s v at read e, starts)
