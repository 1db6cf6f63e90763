-- ===== src/Examples/Start.antt =====
-- A client that is set up from a file with two hosts.
use cbb.Common.{cbb_success, bytes}
use cbb.Settings.Hosts.{join_hosts, IsHost}
use cbb.Hash.Digest.{IsDigest}
use cbb.Text.{eqb, Bytes}
use cbb.Settings.{Tree, Settings}
use cbb.Client.{ended, connection_closed, Network, Client}
use cbb.Prelude.{
  false, ◌≡◌, none, length, arith, ◌∷◌, ℤ, true, some, pos, List, ℕ, if◌then◌else◌, [], Option, All,
  refl, ◌+◌,
}
use cbb.Client.Start.{init, RoutesTo, init-RoutesTo}

abbrev tree : Tree
tree key =
    if eqb key (bytes "Client.host")
    then some (bytes "a,b")
    else if eqb key (bytes "Client.port")
    then some (bytes "9090")
    else none

-- The only number that this reads is "9090".
abbrev to_int : Bytes → Option ℤ
to_int text = if eqb text (bytes "9090") then some (pos 9090) else none

abbrev no_settings : Settings
no_settings = record {
  server_host = [];
  server_port = pos 0;
  server_thread = pos 0;
  server_local_strage_path = [];
  server_secondary_storage_path = [];
  server_interval_time = pos 1;
  client_hosts = [];
  client_port = pos 0;
}

-- The digest begins with a large byte for a path that is not empty.
abbrev digest : Bytes → Option (List ℕ)
digest [] = none
digest (c ∷ path) =
    some (200 ∷ 1 ∷ 2 ∷ 3 ∷ 4 ∷ 5 ∷ 6 ∷ 7 ∷ 8 ∷ 9 ∷ 10 ∷ 11 ∷ 12 ∷ 13 ∷ 14 ∷ 15 ∷ [])

digest-IsDigest : (path : Bytes) → IsDigest (digest path)
digest-IsDigest [] = tt
digest-IsDigest (c ∷ path) = (refl, ground arith)

abbrev quiet : Network
quiet = record {
  World = ℕ;
  send = λ host port req w. (connection_closed, w + 1);
  addr_to_binary = λ host. length host;
  parent_path = λ path. path;
  filename = λ path. path;
}

abbrev fresh : Client quiet
fresh = record {
  world = 0;
  select_server = record {
    hash_calc = record { key_bits = 0; calc_hash = λ path. 0 };
    chash = [];
    server_list = [];
  };
  is_locked = true;
  prev_read_dir = [];
  target_filename = [];
}

hosts-IsHost : All IsHost (bytes "a" ∷ bytes "b" ∷ [])
hosts-IsHost = ((ground arith, (ground arith, tt)), ((ground arith, (ground arith, tt)), tt))

init-RoutesTo_example :
    (d : Client quiet) × (init quiet to_int digest (some tree) no_settings fresh
      ≡ (ended cbb_success, d))
    × (d.is_locked ≡ false)
    × RoutesTo quiet digest (bytes "a" ∷ bytes "b" ∷ []) 1 (pos 9090) d
unfolding eqb join_hosts
init-RoutesTo_example =
    init-RoutesTo quiet to_int digest tree no_settings (bytes "a" ∷ bytes "b" ∷ []) (bytes "9090")
      (pos 9090) 1 fresh refl hosts-IsHost refl refl digest-IsDigest refl (omega arith) refl
