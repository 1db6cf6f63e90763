-- ===== src/Lifetime.antt =====
-- A server of src/cbb/burst_buffer.cc from some moment on: it serves requests, one after the other, the
-- thread of src/cbb/local_file_exporter.cc copies files, and others change the storages.
pub mod Managers
pub mod Table
pub mod Usage
pub mod History
pub mod Locked
pub mod Exports
use cbb.Prelude.{ℕ, ◌≡◌, List, [], ◌∷◌}
use cbb.Posix.{Posix}
use cbb.Exporter.{Exporter, returned, check_local_files}
use cbb.Server.{Server, Reply}
use cbb.Client.{Request, Response}
use cbb.Dispatch.Handlers.{Junk, dispatch}

-- The requests with their replies, the last one first.
abbrev pub Log : Type 0
Log = List (Request × Reply Response)

module _ (P : Posix) (fuel : ℕ) (junk : Junk) (v : Server P) where
  -- An exception of CheckLocalFiles in the thread ends the process, and a lock that never opens ends
  -- the work of the thread.
  pub data Reach : Log → Server P → Type 0 where
    here : Reach [] v
    serve :
        {log : Log} {u : Server P}
        → Reach log u
        → (req : Request)
        → Reach ((req, (dispatch P fuel junk req u).0) ∷ log) (dispatch P fuel junk req u).1
    watch :
        {log : Log} {u : Server P}
        → Reach log u
        → (x : Exporter) (s : P.State)
        → check_local_files P u.md_manager u.lf_exporter u.fs ≡ returned (x, s)
        → Reach log (record u { lf_exporter = x; fs = s })
    outside :
        {log : Log} {u : Server P} → Reach log u → (s : P.State) → Reach log (record u { fs = s })
