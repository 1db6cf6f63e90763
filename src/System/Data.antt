-- ===== src/System/Data.antt =====
-- The data of open files across the client and the server: Write, Read, and Create, of
-- src/cbb/burst_buffer_client.cc with the handlers of src/cbb/burst_buffer.cc.
use cbb.Prelude.{
  true, ap, ℕ, ◌≡◌, ◌<◌, ◌≤◌, ◌^◌, false, pos, [], ◌∷◌, some, Option, arith, refl, length, take,
  length-take, ◌∙◌,
}
use cbb.Text.{Bytes}
use cbb.Text.Find.{eqb_iff}
use cbb.Common.{to_int32-small, ok}
use cbb.Posix.{Posix}
use cbb.Posix.Data.{KeepsData, take-drop-splice}
use cbb.Server
use cbb.Server.{Server, result}
use cbb.Client.{Request, Response, Method, text, num, raw, Network, Client, ended, client_call}
use cbb.Client.Files
use cbb.Client.Files.{File}
use cbb.Dispatch.Handlers.{Junk, dispatch, dispatch_to, code_reply, sized_reply}
use cbb.System.{Delivers}
use cbb.System.Calls.{client_call_served, sent_to}

module _ (P : Posix) (fuel : ℕ) (junk : Junk) where
  -- The request of Write reaches its handler.
  write_dispatched :
      (path bs : Bytes) (fd offset n : ℕ) (v : Server P) (t : P.State)
      → fd < 2 ^ 31
      → offset < 2 ^ 63
      → n < 2 ^ 31
      → P.pwrite fd bs (pos offset) v.fs ≡ (ok n, t)
      → dispatch P fuel junk
          (record {
            method = Method.write;
            params = text path ∷ num (pos fd) ∷ num (pos offset) ∷ raw bs ∷ [];
          })
          v
        ≡ (result (code_reply P fuel junk (pos n)), record v { fs = t })
  unfolding dispatch dispatch_to Server.Files.write
  write_dispatched path bs fd offset n v t h o small e = ground (arith, e, to_int32-small n small)

  -- The request of Read reaches its handler.
  read_dispatched :
      (path bs : Bytes) (fd size offset : ℕ) (v : Server P)
      → fd < 2 ^ 31
      → size < 2 ^ 64
      → offset < 2 ^ 63
      → P.zone_malloc v.fs size ≡ true
      → length bs < 2 ^ 31
      → P.pread fd size (pos offset) v.fs ≡ ok bs
      → dispatch P fuel junk
          (record {
            method = Method.read;
            params = text path ∷ num (pos fd) ∷ num (pos size) ∷ num (pos offset) ∷ [];
          })
          v
        ≡ (result (sized_reply P fuel junk (pos (length bs), bs)), v)
  unfolding dispatch dispatch_to Server.Files.read
  read_dispatched path bs fd size offset v h s o room small e =
      ground (arith, e, room, to_int32-small (length bs) small)

module _ (P : Posix) (fuel : ℕ) (junk : Junk) (N : Network)
    (server_at : N.World → Bytes → ℕ → Option (Server P))
    (D : Delivers P fuel junk N server_at) where
  -- Where the client's mutex is free, and the server at an address is `v`.
  pub record Ready (host : Bytes) (port : ℕ) (v : Server P) (c : Client N) : Type 0 where
    pub free : c.is_locked ≡ false
    pub server : server_at c.world host port ≡ some v

  -- A request that its server answers, with the server afterwards.
  pub client_call-Ready :
      (host : Bytes) (port : ℕ) (req : Request) (c : Client N) (v w : Server P) (a : Response)
      → Ready host port v c
      → dispatch P fuel junk req v ≡ (result a, w)
      → (client_call N host port req c ≡ (ended a, sent_to N host port req c))
        × Ready host port w (sent_to N host port req c)
  client_call-Ready host port req c v w a r e = (
    client_call_served P fuel junk N server_at D host port req c v a r.free r.server
        (ap (λ o. o.0) e),
    record {
      free = r.free;
      server = ground (
        arith,
        D.server_at-send host host port port req c.world v r.server,
        e,
        eqb_iff host host,
      );
    },
  )

  -- Write of a file whose server writes `n` bytes.
  pub write_remotely :
      (file : File) (bs : Bytes) (offset n : ℕ) (c : Client N) (v : Server P) (t : P.State)
      → Ready file.bb_host file.bb_port v c
      → file.fd_org < 2 ^ 31
      → offset < 2 ^ 63
      → n < 2 ^ 31
      → P.pwrite file.fd_org bs (pos offset) v.fs ≡ (ok n, t)
      → let r = Files.write N file bs (pos offset) c in
        (r.0 ≡ ended (pos 0, pos n)) × Ready file.bb_host file.bb_port (record v { fs = t }) r.1
  unfolding Files.write
  write_remotely file bs offset n c v t r fits o small e =
      let (done, after) =
        client_call-Ready file.bb_host file.bb_port _ c v (record v { fs = t }) _ r
          (write_dispatched P fuel junk file.path bs file.fd_org offset n v t fits o small e) in
      let whole : Files.write N file bs (pos offset) c
          ≡ (ended (pos 0, pos n), sent_to N file.bb_host file.bb_port _ c) =
        ground (arith, done) in
      rw whole (refl, after)

  -- Read of a file whose server reads `bs`.
  pub read_remotely :
      (file : File) (bs : Bytes) (size offset : ℕ) (c : Client N) (v : Server P)
      → Ready file.bb_host file.bb_port v c
      → file.fd_org < 2 ^ 31
      → size < 2 ^ 64
      → offset < 2 ^ 63
      → P.zone_malloc v.fs size ≡ true
      → length bs < 2 ^ 31
      → P.pread file.fd_org size (pos offset) v.fs ≡ ok bs
      → let r = Files.read N file size (pos offset) c in
        (r.0 ≡ ended (pos 0, pos (length bs), bs)) × Ready file.bb_host file.bb_port v r.1
  unfolding Files.read
  read_remotely file bs size offset c v r fits s o room small e =
      let (done, after) = client_call-Ready file.bb_host file.bb_port _ c v v _ r (
        read_dispatched P fuel junk file.path bs file.fd_org size offset v fits s o room small e) in
      let whole : Files.read N file size (pos offset) c
          ≡ (ended (pos 0, pos (length bs), bs), sent_to N file.bb_host file.bb_port _ c) =
        ground (arith, done) in
      rw whole (refl, after)

  module _ (content : P.State → Bytes → Option Bytes) (names : P.State → ℕ → Option Bytes)
      (K : KeepsData P content names) where
    -- With the mutex free, an open file that leads to a path on a server that runs, and pwrite,
    -- pread and descriptors as documented: when pwrite writes `n` of the bytes, fewer than 2 ^ 31,
    -- Write reports this number, and a Read of as many bytes at the same offset, if pread succeeds
    -- and the server has the memory for them, brings back just these.
    pub read-write :
        (file : File) (p old bs got : Bytes) (offset n : ℕ) (c : Client N) (v : Server P)
        (t : P.State)
        → Ready file.bb_host file.bb_port v c
        → file.fd_org < 2 ^ 31
        → offset < 2 ^ 63
        → n < 2 ^ 31
        → n ≤ length bs
        → names v.fs file.fd_org ≡ some p
        → content v.fs p ≡ some old
        → P.pwrite file.fd_org bs (pos offset) v.fs ≡ (ok n, t)
        → P.zone_malloc t n ≡ true
        → P.pread file.fd_org n (pos offset) t ≡ ok got
        → ((Files.write N file bs (pos offset) c).0 ≡ ended (pos 0, pos n))
          × ((Files.read N file n (pos offset) (Files.write N file bs (pos offset) c).1).0
              ≡ ended (pos 0, pos n, take n bs))
    read-write file p old bs got offset n c v t r fits o small part name has put room gets =
        let fd = file.fd_org in
        let same =
          K.content-pread t p _ got fd n offset (K.names-pwrite v.fs t bs fd fd offset n put ∙ name)
            (K.content-pwrite v.fs t p old bs fd offset n name has put) gets in
        let whole = length-take n bs part in
        let back : got ≡ take n bs =
          same ∙ (rw whole at (take-drop-splice old offset (take n bs))) in
        let (wrote, after) = write_remotely file bs offset n c v t r fits o small put in
        let (gave, _) =
          read_remotely file got n offset (Files.write N file bs (pos offset) c).1
            (record v { fs = t }) after fits (omega arith) o room (rw (back, whole) small) gets in
        (wrote, rw gave (rw (back, whole) refl))
