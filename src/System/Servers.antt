-- ===== src/System/Servers.antt =====
-- Operations of src/cbb/burst_buffer_client.cc on all servers, each of which dispatches as
-- src/cbb/burst_buffer.cc does.
use cbb.Prelude.{
  All, ap, ◌∙◌, ℕ, ◌≡◌, ◌<◌, ◌^◌, false, pos, List, [], ◌∷◌, ◌++◌, some, Option, arith, refl, inl,
  inr, Bool-cases,
}
use cbb.Text.{Bytes}
use cbb.Text.Find.{eqb_iff}
use cbb.Common.{Error}
use cbb.Posix.{Posix}
use cbb.SelectServer.{ServerInfo, get_info}
use cbb.Server
use cbb.Server.{Server, result}
use cbb.Client.{
  Method, text, num, Request, Response, Network, Client, ended, aborted, client_call, call_each,
  call_all, to_u16,
}
use cbb.Client.Names
use cbb.Client.Files
use cbb.Client.Files.{File}
use cbb.Dispatch.{accepts}
use cbb.Dispatch.Handlers.{Junk, dispatch, dispatch_to, code_reply}
use cbb.System.{Delivers, is_at}
use cbb.System.Calls.{sent_to, client_call_served, client_call_aborts}

abbrev mk_dir_request : Bytes → ℕ → Request
mk_dir_request path mode = record {
  method = Method.mk_dir;
  params = text path ∷ num (pos mode) ∷ [];
}

module _ (P : Posix) (fuel : ℕ) (junk : Junk) where
  -- MkDir always answers.
  mk_dir_answers :
      (path : Bytes) (mode : ℕ) (v : Server P)
      → (e : Error) × ((Server.Names.mk_dir P path mode v).0 ≡ result e)
  unfolding Server.Names.mk_dir
  mk_dir_answers path mode v = (_, refl)

  mk_dir_dispatched :
      (path : Bytes) (mode : ℕ) (v : Server P) (e : Error)
      → mode < 2 ^ 32
      → (Server.Names.mk_dir P path mode v).0 ≡ result e
      → dispatch P fuel junk (mk_dir_request path mode) v
        ≡ (result (code_reply P fuel junk e), (Server.Names.mk_dir P path mode v).1)
  unfolding dispatch dispatch_to
  mk_dir_dispatched path mode v e h r = ground (arith, r)

module _ (P : Posix) (fuel : ℕ) (junk : Junk) (N : Network)
    (server_at : N.World → Bytes → ℕ → Option (Server P))
    (D : Delivers P fuel junk N server_at) where
  abbrev at : N.World → ServerInfo → Option (Server P)
  at w info = server_at w info.host (to_u16 info.port)

  -- A server runs at each of the addresses.
  abbrev pub Run : N.World → List ServerInfo → Type 0
  Run w servers = All (λ info. (v : Server P) × (at w info ≡ some v)) servers

  -- None of the addresses is that of another server.
  abbrev pub Elsewhere : ServerInfo → List ServerInfo → Type 0
  Elsewhere last servers =
      All (λ info. is_at info.host (to_u16 info.port) last.host (to_u16 last.port) ≡ false) servers

  abbrev sent : ServerInfo → Request → N.World → N.World
  sent info req w = (N.send info.host (to_u16 info.port) req w).1

  Run-sent :
      (info : ServerInfo) (req : Request) (w : N.World) (v : Server P) (servers : List ServerInfo)
      → at w info ≡ some v
      → Run w servers
      → Run (sent info req w) servers
  Run-sent info req w v [] e runs = tt
  Run-sent info req w v (other ∷ servers) e ((u, here), runs) =
      let moved =
        D.server_at-send info.host other.host (to_u16 info.port) (to_u16 other.port) req w v e in
      let rest = Run-sent info req w v servers e runs in
      elim (Bool-cases (is_at info.host (to_u16 info.port) other.host (to_u16 other.port))) [
        | inl same ↦ (((dispatch P fuel junk req v).1, moved ∙ rw same refl), rest)
        | inr apart ↦ ((u, moved ∙ rw apart here), rest)
      ]

  module _ (path : Bytes) (mode : ℕ) (fits : mode < 2 ^ 32) where
    abbrev req : Request
    req = mk_dir_request path mode

    call_each_served :
        (info : ServerInfo) (servers : List ServerInfo) (error : Error) (c : Client N)
        (v : Server P)
        → c.is_locked ≡ false
        → at c.world info ≡ some v
        → (e : Error) × ((Server.Names.mk_dir P path mode v).0 ≡ result e)
          × (call_each N (info ∷ servers) req error c
              ≡ call_each N servers req e (sent_to N info.host (to_u16 info.port) req c))
    unfolding call_each
    call_each_served info servers error c v u here =
        let (e, answer) = mk_dir_answers P fuel junk path mode v in
        let ran = mk_dir_dispatched P fuel junk path mode v e fits answer in
        let done =
          client_call_served P fuel junk N server_at D info.host (to_u16 info.port) req c v
            (code_reply P fuel junk e) u here (ap (λ r. r.0) ran) in
        (e, answer, ground (arith, done))

    call_each_last :
        (servers : List ServerInfo) (last : ServerInfo) (error e : Error) (c : Client N)
        (v : Server P)
        → c.is_locked ≡ false
        → Run c.world servers
        → Elsewhere last servers
        → at c.world last ≡ some v
        → (Server.Names.mk_dir P path mode v).0 ≡ result e
        → let r = call_each N (servers ++ (last ∷ [])) req error c in
          (r.0 ≡ ended e) × (at r.1.world last ≡ some (Server.Names.mk_dir P path mode v).1)
    unfolding call_each
    call_each_last [] last error e c v u runs apart here answer =
        let ran = mk_dir_dispatched P fuel junk path mode v e fits answer in
        let done =
          client_call_served P fuel junk N server_at D last.host (to_u16 last.port) req c v
            (code_reply P fuel junk e) u here (ap (λ r. r.0) ran) in
        let moved =
          D.server_at-send last.host last.host (to_u16 last.port) (to_u16 last.port) req c.world v
            here in
        (ground (arith, done), ground (arith, done, moved, ran, eqb_iff last.host last.host))
    call_each_last (info ∷ servers) last error e c v u ((w, first), runs) (other, apart) here
          answer =
        let (e', _, step) = call_each_served info (servers ++ (last ∷ [])) error c w u first in
        let moved =
          D.server_at-send info.host last.host (to_u16 info.port) (to_u16 last.port) req c.world w
            first in
        let rest =
          call_each_last servers last e' e (sent_to N info.host (to_u16 info.port) req c) v u
            (Run-sent info req c.world w servers first runs) apart (moved ∙ rw other here) answer in
        rw step rest

    -- With the mutex free and a server running at each address of the list, of which the last is at
    -- none of the others' addresses, MkDir returns what the handler of the last server answers, from
    -- the state that this server is in, and makes the directory there; what the servers before it
    -- answer is lost.
    pub mk_dir_last :
        (junk_error e : Error) (c : Client N) (servers : List ServerInfo) (last : ServerInfo)
        (v : Server P)
        → c.is_locked ≡ false
        → c.select_server.server_list ≡ servers ++ (last ∷ [])
        → Run c.world servers
        → Elsewhere last servers
        → server_at c.world last.host (to_u16 last.port) ≡ some v
        → (Server.Names.mk_dir P path mode v).0 ≡ result e
        → let r = Names.mk_dir N path mode junk_error c in
          (r.0 ≡ ended e)
          × (server_at r.1.world last.host (to_u16 last.port)
              ≡ some (Server.Names.mk_dir P path mode v).1)
    unfolding Names.mk_dir call_all
    mk_dir_last junk_error e c servers last v u list runs apart here answer =
        simp list (call_each_last servers last junk_error e c v u runs apart here answer)

  -- With the mutex free and the first server of the list running, FSyncDir of the client ends the
  -- program, and no server changes: its request names kFSync without the descriptor that dispatch
  -- converts, and the server refuses it.
  pub fsync_dir_aborts :
      (path : Bytes) (datasync junk_error : Error) (c : Client N) (info : ServerInfo)
      (rest : List ServerInfo) (v : Server P) (host : Bytes) (port : ℕ)
      → c.is_locked ≡ false
      → c.select_server.server_list ≡ info ∷ rest
      → server_at c.world info.host (to_u16 info.port) ≡ some v
      → let r = Files.fsync_dir N path datasync junk_error c in
        (r.0 ≡ aborted) × (server_at r.1.world host port ≡ server_at c.world host port)
  unfolding Files.fsync_dir call_all call_each accepts
  fsync_dir_aborts path datasync junk_error c info rest v host port u list here =
      let ends =
        client_call_aborts P fuel junk N server_at D info.host host (to_u16 info.port) port
          (record { method = Method.fsync; params = text path ∷ num datasync ∷ [] }) c v u here
          refl in
      rw list (ground (arith, ends.0, ends.1))

  -- With the mutex free and the server of the path running, Lock of the client ends the program, and
  -- no server changes: its request lacks the command that dispatch converts.
  lock_aborts :
      (path : Bytes) (file : File) (c : Client N) (info : ServerInfo) (v : Server P) (host : Bytes)
      (port : ℕ)
      → c.is_locked ≡ false
      → get_info c.select_server path ≡ some info
      → server_at c.world info.host (to_u16 info.port) ≡ some v
      → let r = Files.lock N path file c in
        (r.0 ≡ aborted) × (server_at r.1.world host port ≡ server_at c.world host port)
  unfolding Files.lock accepts cbb.Client.code_at cbb.Client.call_at cbb.Client.get_burst_buffer
  lock_aborts path file c info v host port u found here =
      let ends =
        client_call_aborts P fuel junk N server_at D info.host host (to_u16 info.port) port
          (record { method = Method.lock; params = text path ∷ num (pos file.fd_org) ∷ [] }) c v u
          here refl in
      (ground (arith, found, ends.0), ground (arith, found, ends.0, ends.1))
