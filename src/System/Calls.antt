-- ===== src/System/Calls.antt =====
-- Calls of the client of src/cbb/burst_buffer_client.cc that reach a server.
use cbb.Prelude.{ap, ◌∙◌, ℕ, ◌≡◌, false, some, Option, if◌then◌else◌, arith}
use cbb.Text.{Bytes}
use cbb.Text.Find.{eqb_iff}
use cbb.Posix.{Posix}
use cbb.Server.{Server, result, error_reply}
use cbb.Client.{
  Request, Response, Network, Client, ended, aborted, client_call, retry_loop, get_burst_buffer,
  call_at, code_at, to_u16,
}
use cbb.SelectServer.{get_info, ServerInfo}
use cbb.Dispatch.{accepts}
use cbb.Dispatch.Handlers.{Junk, dispatch}
use cbb.Dispatch.Refusal.{dispatch_refuses}
use cbb.System.{Delivers, is_at}

-- The client after a request to an address.
abbrev pub sent_to : (N : Network) → Bytes → ℕ → Request → Client N → Client N
sent_to N host port req c = record c { world = (N.send host port req c.world).1 }

module _ (P : Posix) (fuel : ℕ) (junk : Junk) (N : Network)
    (server_at : N.World → Bytes → ℕ → Option (Server P))
    (D : Delivers P fuel junk N server_at) where
  -- A request that its server answers.
  pub client_call_served :
      (host : Bytes) (port : ℕ) (req : Request) (c : Client N) (v : Server P) (a : Response)
      → c.is_locked ≡ false
      → server_at c.world host port ≡ some v
      → (dispatch P fuel junk req v).0 ≡ result a
      → client_call N host port req c ≡ (ended a, sent_to N host port req c)
  unfolding client_call retry_loop
  client_call_served host port req c v a u at r =
      ground (arith, D.answers host port req c.world v at)

  -- A request that its server refuses with an error.
  client_call_refused :
      (host : Bytes) (port : ℕ) (req : Request) (c : Client N) (v : Server P)
      → c.is_locked ≡ false
      → server_at c.world host port ≡ some v
      → (dispatch P fuel junk req v).0 ≡ error_reply
      → client_call N host port req c ≡ (aborted, sent_to N host port req c)
  unfolding client_call retry_loop
  client_call_refused host port req c v u at r =
      ground (arith, D.answers host port req c.world v at)

  -- With the mutex free, a call on a path whose server runs returns the code that the handler of that
  -- server answers, if it answers; it leaves the mutex free, moves this server by that handler, and
  -- changes no other one.
  code_at_served :
      (path : Bytes) (req : Request) (c : Client N) (info : ServerInfo) (v : Server P)
      (a : Response) (host' : Bytes) (port' : ℕ)
      → c.is_locked ≡ false
      → get_info c.select_server path ≡ some info
      → server_at c.world info.host (to_u16 info.port) ≡ some v
      → (dispatch P fuel junk req v).0 ≡ result a
      → ((code_at N path req c).0 ≡ ended a.code)
        × ((code_at N path req c).1.is_locked ≡ false)
        × (server_at (code_at N path req c).1.world host' port' ≡ (
            if is_at info.host (to_u16 info.port) host' port'
            then some (dispatch P fuel junk req v).1
            else server_at c.world host' port'))
  unfolding code_at call_at get_burst_buffer
  code_at_served path req c info v a host' port' u i at r =
      let port = to_u16 info.port in
      let done = client_call_served info.host port req c v a u at r in
      let moved = D.server_at-send info.host host' port port' req c.world v at in
      (ground (arith, done), ground (arith, done), ground (arith, done, moved))

  -- With the mutex free, a request whose parameters do not convert, to a server that runs, ends the
  -- client's program and changes no server.
  pub client_call_aborts :
      (host host' : Bytes) (port port' : ℕ) (req : Request) (c : Client N) (v : Server P)
      → c.is_locked ≡ false
      → server_at c.world host port ≡ some v
      → accepts req ≡ false
      → ((client_call N host port req c).0 ≡ aborted)
        × (server_at (client_call N host port req c).1.world host' port'
            ≡ server_at c.world host' port')
  client_call_aborts host host' port port' req c v u at e =
      let refused = dispatch_refuses P fuel junk req v e in
      let done = client_call_refused host port req c v u at (ground (arith, refused)) in
      let moved = D.server_at-send host host' port port' req c.world v at in
      (
        ground (arith, done),
        ap (λ r. server_at r.1.world host' port') done
            ∙ moved
            ∙ ground (arith, refused, eqb_iff host' host, at),
      )
