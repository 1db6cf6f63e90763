-- ===== src/Examples/Lifetime.antt =====
-- A server of files in memory over some requests.
use cbb.Prelude.{false, ◌≡◌, refl, not, ◌||◌, true, false, [], ◌∷◌, pos}
use cbb.Common.{bytes}
use cbb.Posix.Memory.{memory}
use cbb.StdMap.{is_empty, lookup, assign}
use cbb.Manager.{descriptors, is_buffered}
use cbb.Manager.Table.{holds}
use cbb.Server.{Server}
use cbb.Server.Files
use cbb.Client.{Method, Request, text, num}
use cbb.Dispatch.Handlers.{dispatch}
use cbb.Lifetime.{Log, Reach, here, serve}
use cbb.Lifetime.Exports.{registered_since, registered-Reach}
use cbb.Lifetime.Table.{is_buffered-Reach}
use cbb.Lifetime.History.{holds-Reach}
use cbb.Lifetime.Usage.{in_use, unlinked}
use cbb.Lifetime.Locked.{locks-Reach, creating, has_result}
use cbb.Examples.System.{junk, server}

-- Create of `f`, and then Release of its descriptor.
abbrev create_f : Request
create_f = record {
  method = Method.create;
  params = text (bytes "f") ∷ num (pos 2) ∷ num (pos 420) ∷ [];
}

abbrev release_f : Request
release_f = record { method = Method.release; params = text (bytes "f") ∷ num (pos 3) ∷ [] }

abbrev created : Server memory
created = (dispatch memory 3 junk create_f server).1

abbrev released : Server memory
released = (dispatch memory 3 junk release_f created).1

abbrev log : Log
log =
    (release_f, (dispatch memory 3 junk release_f created).0)
    ∷ (create_f, (dispatch memory 3 junk create_f server).0)
    ∷ []

run : Reach memory 3 junk server log released
run = serve (serve here create_f) release_f

is_buffered-Reach_example :
    (is_buffered released.md_manager (bytes "f")
      ≡ not (is_empty (descriptors released.md_manager.table (bytes "f"))))
    × (released.md_manager.local_storage_root_path ≡ bytes "l")
    × (released.md_manager.secondary_storage_root_path ≡ bytes "r")
is_buffered-Reach_example = is_buffered-Reach memory 3 junk server released log (bytes "f") refl run

holds-Reach_example :
    ((not (holds created.md_manager (bytes "f") 3) || true) ≡ true)
    × (holds created.md_manager (bytes "f") 3 ≡ true)
unfolding in_use cbb.StdMap.set_has unlinked cbb.Text.eqb lookup dispatch Files.create
holds-Reach_example =
    holds-Reach memory 3 junk (bytes "f") 3 server created
      ((create_f, (dispatch memory 3 junk create_f server).0) ∷ []) refl (serve here create_f)

-- The server when its disk is full and a file is registered for export.
abbrev full : Server memory
full = record server {
  lf_exporter = record { local_files = (bytes "f", 5) ∷ []; locked = false };
  fs = record server.fs { full = true };
}

abbrev stuck : Server memory
stuck = record full { lf_exporter = record full.lf_exporter { locked = true } }

locks-Reach_example :
    ((dispatch memory 3 junk release_f stuck).1.lf_exporter ≡ stuck.lf_exporter)
    × (has_result (dispatch memory 3 junk create_f (dispatch memory 3 junk release_f stuck).1).0
        ≡ false)
unfolding Files.local_file_export lookup cbb.Text.eqb cbb.Manager.local_path
    cbb.Manager.secondary_path
locks-Reach_example =
    locks-Reach memory 3 junk full stuck (dispatch memory 3 junk release_f stuck).1
      ((release_f, (dispatch memory 3 junk release_f stuck).0) ∷ []) create_f refl
      (serve here release_f) (creating create_f.params)

registered-Reach_example : registered_since false log (bytes "f") ≡ true
unfolding lookup dispatch Files.release Files.create cbb.Text.eqb cbb.Manager.local_path
    cbb.Manager.unregister_fd
registered-Reach_example = registered-Reach memory (bytes "f") 3 junk server released log run refl
