-- ===== src/System.antt =====
-- The client of src/cbb/burst_buffer_client.cc over servers that dispatch as src/cbb/burst_buffer.cc
-- does. What carries the requests is msgpack-rpc: it is assumed to deliver each to the server at its
-- address, once, and to bring back the reply.
pub mod Calls
pub mod Files
pub mod Export
pub mod Data
pub mod NewFile
pub mod Rewrite
pub mod Durable
pub mod Fuse
pub mod Restore
pub mod Servers
pub mod Renaming
pub mod Reused
use cbb.Prelude.{ℕ, ◌≡◌, Bool, ◌&&◌, Option, some, ◌==◌, if◌then◌else◌}
use cbb.Text.{Bytes, eqb}
use cbb.Posix.{Posix}
use cbb.Server.{Server, Reply, result, error_reply, no_reply}
use cbb.Client.{Request, Response, RpcResult, answered, timeout_error, remote_error, Network}
use cbb.Dispatch.Handlers.{Junk, dispatch}

-- What a reply is to the caller: a request that is never answered times out.
abbrev pub rpc_result : Reply Response → RpcResult
rpc_result (result a) = answered a
rpc_result error_reply = remote_error
rpc_result no_reply = timeout_error

abbrev pub is_at : Bytes → ℕ → Bytes → ℕ → Bool
is_at host port host' port' = eqb host' host && port' == port

-- The servers that a world of the network has, and that a request changes only the one it is sent to,
-- in the way of its dispatch.
pub record Delivers (P : Posix) (fuel : ℕ) (junk : Junk) (N : Network)
    (server_at : N.World → Bytes → ℕ → Option (Server P)) : Type 0 where
  pub answers :
      (host : Bytes) (port : ℕ) (req : Request) (w : N.World) (v : Server P)
      → server_at w host port ≡ some v
      → (N.send host port req w).0 ≡ rpc_result (dispatch P fuel junk req v).0
  pub server_at-send :
      (host host' : Bytes) (port port' : ℕ) (req : Request) (w : N.World) (v : Server P)
      → server_at w host port ≡ some v
      → server_at (N.send host port req w).1 host' port' ≡ (
          if is_at host port host' port'
          then some (dispatch P fuel junk req v).1
          else server_at w host' port')
