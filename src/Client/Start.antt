-- ===== src/Client/Start.antt =====
-- Init of src/cbb/burst_buffer_client.cc, and where a client that it has set up sends a path. The
-- settings that Init keeps are read nowhere else.
use cbb.Settings.Load.{load_client}
use cbb.SelectServer.Routing.{get_info-init}
use cbb.StdMap.{is_empty}
use cbb.Settings.Hosts.{join_hosts, IsHost}
use cbb.Hash.Ring.{owner}
use cbb.Hash.Digest.{calc_hash_md5-le-max_key, IsDigest}
use cbb.Prelude.{
  refl, ◌/◌, true, ◌≤◌, length, All, zero, ℕ, suc, ◌≡◌, ℤ, false, List, [], ◌∷◌, Option, none, some,
  arith, get_elem?, if◌then◌else◌,
}
use cbb.Text.{Bytes}
use cbb.Common.{bytes, Error, cbb_success, cbb_unknown_error}
use cbb.Hash.{max_key, calc_hash_md5, md5_key_bits}
use cbb.Settings.{Settings, Tree, load}
use cbb.SelectServer
use cbb.SelectServer.{SelectServer, HashCalc, ServerInfo, infos_of, get_info, is_pos}
use cbb.Client.{to_u16, get_burst_buffer, Client, Network, M, ended, raised}

-- HashCalcMD5, over what the MD5 calls of OpenSSL give for a text.
abbrev pub hash_calc_md5 : (Bytes → Option (List ℕ)) → HashCalc
hash_calc_md5 digest = record {
  key_bits = md5_key_bits;
  calc_hash = λ path. calc_hash_md5 (digest path);
}

module _ (N : Network) (to_int : Bytes → Option ℤ) (digest : Bytes → Option (List ℕ)) where
  -- BurstBufferClient::Init, from what the settings were before.
  unfoldable pub init : Option Tree → Settings → M N Error
  unfolding load SelectServer.init
  init file settings c =
      let (s, done) = load to_int file false settings in
      if done
      then elim (SelectServer.init s (hash_calc_md5 digest)) [
        | none ↦ (raised, c)
        | some select_server ↦
            (ended cbb_success, record c { select_server = select_server; is_locked = false })
      ]
      else (ended cbb_unknown_error, c)

init_server_list :
    (settings : Settings) (h : HashCalc) (s : SelectServer)
    → SelectServer.init settings h ≡ some s
    → s.server_list ≡ infos_of settings settings.client_hosts
unfolding SelectServer.init
init_server_list settings h s e = ground arith

host_of_info :
    (settings : Settings) (hosts : List Bytes) (i : ℕ) (info : ServerInfo)
    → get_elem? (infos_of settings hosts) i ≡ some info
    → (get_elem? hosts i ≡ some info.host) × (info.port ≡ settings.client_port)
unfolding infos_of
host_of_info settings [] i info h = ground arith
host_of_info settings (host ∷ hosts) zero info h = ground arith
host_of_info settings (host ∷ hosts) (suc i) info h = host_of_info settings hosts i info h

full_of_IsHost : (hosts : List Bytes) → All IsHost hosts → All (λ host. is_empty host ≡ false) hosts
full_of_IsHost [] h = tt
full_of_IsHost ([] ∷ hosts) h = absurd (h.0.0 refl)
full_of_IsHost ((c ∷ host) ∷ hosts) h = (refl, full_of_IsHost hosts h.1)

-- Every path goes to one host of the list, the one that its hash picks, at the port.
abbrev pub RoutesTo :
    (N : Network) → (Bytes → Option (List ℕ)) → List Bytes → ℕ → ℤ → Client N → Type 0
RoutesTo N digest hosts last port c =
    (path : Bytes)
    → (host : Bytes) × (get_elem? hosts
          (owner (max_key md5_key_bits / suc last) last (calc_hash_md5 (digest path)))
        ≡ some host)
      × (get_burst_buffer N path c ≡ (ended (host, to_u16 port), c))

module _ (N : Network) (to_int : Bytes → Option ℤ) (digest : Bytes → Option (List ℕ)) where
  init_routes :
      (settings : Settings) (s : SelectServer) (c : Client N) (last : ℕ)
      → ((path : Bytes) → IsDigest (digest path))
      → length settings.client_hosts ≡ suc last
      → suc last ≤ max_key md5_key_bits
      → All IsHost settings.client_hosts
      → is_pos settings.client_port ≡ true
      → SelectServer.init settings (hash_calc_md5 digest) ≡ some s
      → c.select_server ≡ s
      → RoutesTo N digest settings.client_hosts last settings.client_port c
  unfolding get_burst_buffer
  init_routes settings s c last d n few h p e same path =
      let (s', info, built, found, at) =
        get_info-init settings (hash_calc_md5 digest) path last n few
          (calc_hash_md5-le-max_key (digest path) (d path)) (full_of_IsHost settings.client_hosts h)
          p in
      let agree : s' ≡ s = ground (arith, built, e) in
      let place =
        host_of_info settings settings.client_hosts
          (owner (max_key md5_key_bits / suc last) last (calc_hash_md5 (digest path))) info
          (rw (init_server_list settings (hash_calc_md5 digest) s' built) at at) in
      let found' : get_info c.select_server path ≡ some info = ground (arith, agree, found, same) in
      (info.host, place.0, ground (arith, found', place.1))

  -- When the client file has a list of hosts, written with commas, at least one and fewer than there
  -- are keys, and a positive port, and MD5 gives sixteen bytes or fails, Init returns success from
  -- any state, with the mutex free, and then every path goes to the host of the list that its hash
  -- picks, `min ((hash - 1) / (keys / hosts)) (hosts - 1)`, at that port.
  pub init-RoutesTo :
      (tree : Tree) (s : Settings) (hosts : List Bytes) (port_text : Bytes) (port : ℤ) (last : ℕ)
      (c : Client N)
      → tree (bytes "Client.host") ≡ some (join_hosts hosts)
      → All IsHost hosts
      → tree (bytes "Client.port") ≡ some port_text
      → to_int port_text ≡ some port
      → ((path : Bytes) → IsDigest (digest path))
      → length hosts ≡ suc last
      → suc last ≤ max_key md5_key_bits
      → is_pos port ≡ true
      → (d : Client N) × (init N to_int digest (some tree) s c ≡ (ended cbb_success, d))
        × (d.is_locked ≡ false)
        × RoutesTo N digest hosts last port d
  unfolding init
  init-RoutesTo tree s hosts port_text port last c e h q r dig n few p =
      let t = (load to_int (some tree) false s).0 in
      let (done, same_hosts, same_port) = load_client to_int tree s hosts port_text port e h q r in
      let (sel, info, built, found, at) =
        get_info-init t (hash_calc_md5 digest) [] last (rw same_hosts n) few
          (calc_hash_md5-le-max_key (digest []) (dig [])) (rw same_hosts (full_of_IsHost hosts h))
          (rw same_port p) in
      let d : Client N = record c { select_server = sel; is_locked = false } in
      (
        d,
        ground (arith, done, built),
        refl,
        rw (same_hosts, same_port) at
            (init_routes t sel d last dig (rw same_hosts n) few (rw same_hosts h) (rw same_port p)
              built refl),
      )
