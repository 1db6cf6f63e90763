-- ===== src/SelectServer.antt =====
-- src/util/select_server.h and .cc: the servers of the settings on the ring of hashes. The hash
-- function is an argument: src/util/hash calls OpenSSL and boost.
pub mod Routing
use cbb.Prelude.{
  ℕ, suc, Bool, true, false, ℤ, pos, negsuc, List, [], ◌∷◌, Option, none, some, map, is_neg, not,
  ◌&&◌, if◌then◌else◌, ltb,
}
use cbb.Text.{Bytes}
use cbb.StdMap.{is_empty}
use cbb.Hash
use cbb.Hash.{NodeCircleInfo}
use cbb.Settings.{Settings}

pub record ServerInfo : Type 0 where
  pub host : Bytes
  pub port : ℤ

-- HashCalcBase
pub record HashCalc : Type 0 where
  pub key_bits : ℕ
  pub calc_hash : Bytes → ℕ

pub record SelectServer : Type 0 where
  pub hash_calc : HashCalc
  pub chash : List (NodeCircleInfo ServerInfo)
  pub server_list : List ServerInfo

-- The loop of Init over the hosts of the settings.
unfoldable pub infos_of : Settings → List Bytes → List ServerInfo
infos_of settings [] = []
infos_of settings (host ∷ hosts) =
    record { host = host; port = settings.client_port } ∷ infos_of settings hosts

-- Init: `none` when the ring's division by the number of servers throws.
unfoldable pub init : Settings → HashCalc → Option SelectServer
unfolding infos_of Hash.create
init settings hash_calc =
    let infos = infos_of settings settings.client_hosts in
    elim (Hash.create hash_calc.key_bits infos) [
      | none ↦ none
      | some circle ↦ some (record { hash_calc = hash_calc; chash = circle; server_list = infos })
    ]

-- 0 < port
abbrev pub is_pos : ℤ → Bool
is_pos (pos n) = ltb 0 n
is_pos (negsuc n) = false

-- GetInfo: `none` when an assertion on the server found fails.
unfoldable pub get_info : SelectServer → Bytes → Option ServerInfo
unfolding Hash.get_node
get_info s path = elim (Hash.get_node s.chash (s.hash_calc.calc_hash path)) [
  | none ↦ none
  | some info ↦ if not (is_empty info.host) && is_pos info.port then some info else none
]
