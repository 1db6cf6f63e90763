-- ===== src/Placement.antt =====
-- Where the files of src/cbb/burst_buffer_client.cc are open: the servers behind the clients, and the
-- server that src/util/select_server.cc gives for a path.
pub mod Tables
pub mod Calls
pub mod Attributes
pub mod Operations
pub mod Names
pub mod Cluster
use cbb.Prelude.{ℕ, ◌≡◌, true, Option, none, some}
use cbb.Text.{Bytes}
use cbb.Posix.{Posix}
use cbb.Manager.{is_buffered}
use cbb.Server.{Server}
use cbb.SelectServer.{SelectServer, ServerInfo, get_info}
use cbb.Client.{Request, Network, Client, M, to_u16}

-- A request to an address where no server runs changes no server.
pub record Isolates (P : Posix) (N : Network) (server_at : N.World → Bytes → ℕ → Option (Server P))
    : Type 0 where
  pub server_at-send_none :
      (host host' : Bytes) (port port' : ℕ) (req : Request) (w : N.World)
      → server_at w host port ≡ none
      → server_at (N.send host port req w).1 host' port' ≡ server_at w host' port'

-- The server that the clients select for a path is at an address.
abbrev pub IsHome : SelectServer → Bytes → Bytes → ℕ → Type 0
IsHome servers path host port =
    (info : ServerInfo) × (get_info servers path ≡ some info)
    × (info.host ≡ host)
    × (to_u16 info.port ≡ port)

module _ (P : Posix) (N : Network) (server_at : N.World → Bytes → ℕ → Option (Server P)) where
  -- Every path that a server has open is one that the clients send there.
  abbrev pub IsPlaced : SelectServer → N.World → Type 0
  IsPlaced servers w =
      (host : Bytes) (port : ℕ) (v : Server P) (path : Bytes)
      → server_at w host port ≡ some v
      → is_buffered v.md_manager path ≡ true
      → IsHome servers path host port

  -- What an operation of a client does to the placement.
  pub record KeepsPlaces {A : Type 0} (m : M N A) : Type 0 where
    pub selects : (c : Client N) → (m c).1.select_server ≡ c.select_server
    pub places :
        (servers : SelectServer) (c : Client N)
        → c.select_server ≡ servers
        → IsPlaced servers c.world
        → IsPlaced servers (m c).1.world
