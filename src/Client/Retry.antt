-- ===== src/Client/Retry.antt =====
-- MSGPACK_CLIENT_CALL of src/cbb/burst_buffer_client.cc: one attempt, and what becomes of the mutex.
use cbb.Prelude.{ℕ, ◌≡◌, Bool, true, false, arith}
use cbb.Text.{Bytes}
use cbb.Client.{
  Request, RpcResult, connection_closed, system_error, timeout_error, Network, Client, raised,
  blocked, retry_loop, client_call,
}

-- Whether a remote call failed in its transport, which the macro means to try again.
abbrev pub is_transport_error : RpcResult → Bool
is_transport_error connection_closed = true
is_transport_error system_error = true
is_transport_error timeout_error = true
is_transport_error _ = false

module _ (N : Network) where
  -- From a free mutex, a call ends with the first transport error, without another attempt, and the
  -- mutex stays locked: every later call of the client, to any server, waits for ever and sends
  -- nothing.
  pub client_call_transport :
      (host host' : Bytes) (port port' : ℕ) (req req' : Request) (c : Client N)
      → c.is_locked ≡ false
      → is_transport_error (N.send host port req c.world).0 ≡ true
      → let r = client_call N host port req c in
        (r.0 ≡ raised)
        × (r.1.world ≡ (N.send host port req c.world).1)
        × (client_call N host' port' req' r.1 ≡ (blocked, r.1))
  unfolding client_call retry_loop
  client_call_transport host host' port port' req req' c u h =
      (ground arith, ground arith, ground arith)
