-- ===== src/SelectServer/Routing.antt =====
-- Where SelectServer of src/util/select_server.cc sends a path.
use cbb.Prelude.{
  ◌∙◌, ℕ, zero, suc, ◌/◌, ◌≤◌, ◌<◌, ◌≡◌, refl, true, false, List, [], ◌∷◌, some, arith, length, All,
  get_elem?,
}
use cbb.Text.{Bytes}
use cbb.StdMap.{is_empty}
use cbb.Hash.{max_key}
use cbb.Hash.Ring.{owner, get_node-create}
use cbb.Settings.{Settings}
use cbb.SelectServer.{SelectServer, ServerInfo, HashCalc, infos_of, init, get_info, is_pos}

length-infos_of :
    (settings : Settings) (hosts : List Bytes) → length (infos_of settings hosts) ≡ length hosts
unfolding infos_of
length-infos_of settings [] = refl
length-infos_of settings (host ∷ hosts) = omega (arith, length-infos_of settings hosts)

-- Every entry in range is a server that GetInfo accepts.
get_elem?-infos_of :
    (settings : Settings) (hosts : List Bytes) (i : ℕ)
    → i < length hosts
    → All (λ host. is_empty host ≡ false) hosts
    → is_pos settings.client_port ≡ true
    → (info : ServerInfo) × (get_elem? (infos_of settings hosts) i ≡ some info)
      × (is_empty info.host ≡ false)
      × (is_pos info.port ≡ true)
unfolding infos_of
get_elem?-infos_of settings [] i h full p = absurd (omega arith)
get_elem?-infos_of settings (host ∷ hosts) zero h full p =
    (record { host = host; port = settings.client_port }, refl, full.0, p)
get_elem?-infos_of settings (host ∷ hosts) (suc i) h full p =
    get_elem?-infos_of settings hosts i (omega arith) full.1 p

-- With at least one configured host, no empty host name, a positive port, fewer hosts than keys and
-- a hash that fits its bits, Init succeeds and GetInfo finds a server for every path: the configured
-- one with the number `min ((hash - 1) / (keys / hosts)) (hosts - 1)`; none of its assertions fails.
pub get_info-init :
    (settings : Settings) (h : HashCalc) (path : Bytes) (last : ℕ)
    → length settings.client_hosts ≡ suc last
    → suc last ≤ max_key h.key_bits
    → h.calc_hash path ≤ max_key h.key_bits
    → All (λ host. is_empty host ≡ false) settings.client_hosts
    → is_pos settings.client_port ≡ true
    → (s : SelectServer) × (info : ServerInfo) × (init settings h ≡ some s)
      × (get_info s path ≡ some info)
      × (get_elem? s.server_list (owner (max_key h.key_bits / suc last) last (h.calc_hash path))
          ≡ some info)
unfolding init get_info
get_info-init settings h path last e fits k full p =
    let infos = infos_of settings settings.client_hosts in
    let (circle, built, found) =
      get_node-create h.key_bits last (h.calc_hash path) infos
        (length-infos_of settings settings.client_hosts ∙ e) fits k in
    let (info, at, host, port) =
      get_elem?-infos_of settings settings.client_hosts
        (owner (max_key h.key_bits / suc last) last (h.calc_hash path)) (omega arith) full p in
    (
      record { hash_calc = h; chash = circle; server_list = infos },
      info,
      rw (built, init) refl,
      ground (arith, found),
      at,
    )
