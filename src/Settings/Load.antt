-- ===== src/Settings/Load.antt =====
-- What Settings::Load of src/util/settings.cc leaves.
use cbb.Prelude.{[], ◌≢◌, ◌≡◌, arith, true, false, ℤ, pos, List, Option, some, All}
use cbb.Text.{Bytes}
use cbb.Common.{bytes}
use cbb.Settings.Hosts.{join_hosts, IsHost, to_array-join_hosts}
use cbb.Settings.{read_server, Settings, Tree, load}

module _ (to_int : Bytes → Option ℤ) where
  -- A client file with a port that reads as a number, and whose host list is written with commas is
  -- loaded with just these hosts, in order.
  pub load_client :
      (tree : Tree) (s : Settings) (hosts : List Bytes) (port_text : Bytes) (port : ℤ)
      → tree (bytes "Client.host") ≡ some (join_hosts hosts)
      → All IsHost hosts
      → tree (bytes "Client.port") ≡ some port_text
      → to_int port_text ≡ some port
      → ((load to_int (some tree) false s).1 ≡ true)
        × ((load to_int (some tree) false s).0.client_hosts ≡ hosts)
        × ((load to_int (some tree) false s).0.client_port ≡ port)
  unfolding load
  load_client tree s hosts port_text port e h p q =
      (ground arith, ground (arith, to_array-join_hosts hosts h), ground arith)

  read_server_same :
      (tree tree' : Tree) (s : Settings)
      → ((key : Bytes) → key ≢ bytes "Server.interval_time" → tree key ≡ tree' key)
      → read_server to_int (some tree) s ≡ read_server to_int (some tree') s
  unfolding read_server
  read_server_same tree tree' s same = ground (
    arith,
    same (bytes "Server.host") (ground arith),
    same (bytes "Server.port") (ground arith),
    same (bytes "Server.thread") (ground arith),
    same (bytes "Server.local_strage_path") (ground arith),
    same (bytes "Server.secondary_storage_path") (ground arith),
  )

  -- Loading a server's settings does not depend on `Server.interval_time`: two files that differ at
  -- most in this key give the same settings and the same result, also the same interval.
  pub load_interval_time :
      (tree tree' : Tree) (s : Settings)
      → ((key : Bytes) → key ≢ bytes "Server.interval_time" → tree key ≡ tree' key)
      → load to_int (some tree) true s ≡ load to_int (some tree') true s
  unfolding load
  load_interval_time tree tree' s same = ground (
    arith,
    read_server_same tree tree' (record s { client_hosts = []; client_port = pos 0 }) same,
  )
