-- ===== src/Examples/Placement.antt =====
-- A client that makes a file on the only server.
use cbb.Prelude.{◌∷◌, ℕ, pos, ◌≡◌, refl, some, [], arith}
use cbb.Common.{bytes}
use cbb.Text.{Bytes}
use cbb.Posix.Memory.{memory}
use cbb.Server.{Server}
use cbb.Client.{num, text, Request, Method}
use cbb.Client.Operations.{creating, after}
use cbb.Dispatch.Handlers.{dispatch}
use cbb.Placement.{Isolates, IsHome}
use cbb.Placement.Cluster.{Cluster, here, act, is_buffered-IsHome}
use cbb.Examples.System.{junk, network, network-Delivers, server, servers, client, world, Servers}

network-Isolates : Isolates memory network (λ w. w)
network-Isolates = record { server_at-send_none = λ host host' port port' req w e. rw e refl }

abbrev made : Servers
made = (after network (creating (bytes "h") (pos 577) 420) client).world

run : Cluster memory 3 junk network (λ w. w) network-Delivers network-Isolates servers world made
run = act here (creating (bytes "h") (pos 577) 420) client refl refl

world_empty :
    (host : Bytes) (port : ℕ) (v : Server memory)
    → world host port ≡ some v
    → v.md_manager.table ≡ []
world_empty host port v h = ground arith

abbrev create_h : Request
create_h = record {
  method = Method.create;
  params = text (bytes "h") ∷ num (pos 577) ∷ num (pos 420) ∷ [];
}

abbrev port : ℕ
port = 9090

is_buffered-IsHome_example :
    IsHome servers (bytes "h") (bytes "a") port × (bytes "a" ≡ bytes "a") × (port ≡ port)
unfolding after cbb.Client.Files.create cbb.Client.client_call cbb.Text.eqb dispatch
    cbb.Server.Files.create cbb.Manager.is_buffered
is_buffered-IsHome_example =
    is_buffered-IsHome memory 3 junk network (λ w. w) network-Delivers network-Isolates servers
      world made (bytes "a") (bytes "a") port port (dispatch memory 3 junk create_h server).1
      (dispatch memory 3 junk create_h server).1 (bytes "h") world_empty run refl refl refl refl
