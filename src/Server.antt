-- ===== src/Server.antt =====
-- src/cbb/burst_buffer.h and .cc: the handlers of the server, over the manager of descriptors, the
-- exporter and the two storages. The handlers are in the child modules.
pub mod Names
pub mod Files
pub mod Attributes
pub mod ReadDir
pub mod Renaming
pub mod Moving
pub mod Locking
pub mod Exporting
pub mod Listing
pub mod Links
pub mod Virtual
pub mod Directories
pub mod XAttrs
pub mod Duplicated
use cbb.Prelude.{Bool, true, false, Option, none, some}
use cbb.Posix.{Posix}
use cbb.Manager.{Manager}
use cbb.Exporter.{Exporter, Outcome, returned, threw, blocked}

-- What a client gets: a result, the error of an exception, or nothing because a lock never opens.
pub data Reply (A : Type 0) : Type 0 where
  result : A → Reply A
  error_reply : Reply A
  no_reply : Reply A

pub record Server (P : Posix) : Type 0 where
  pub md_manager : Manager
  pub lf_exporter : Exporter
  pub fs : P.State

abbrev pub Handler : Posix → Type 0 → Type 0
Handler P A = Server P → Reply A × Server P

module _ {P : Posix} {A : Type 0} where
  -- A step on the exporter under its lock, and then the rest of the handler.
  abbrev pub after_lock : (Exporter → Outcome Exporter) → Handler P A → Handler P A
  after_lock f rest v = elim (f v.lf_exporter) [
    | returned x ↦ rest (record v { lf_exporter = x })
    | threw x ↦ (error_reply, record v { lf_exporter = x })
    | blocked ↦ (no_reply, v)
  ]

  -- A step on the storages that gives the result.
  abbrev pub reply_fs : (P.State → A × P.State) → Handler P A
  reply_fs f v = let (a, s) = f v.fs in (result a, record v { fs = s })

  -- A step on the manager and the storages that gives the result.
  abbrev pub reply_manager : (Manager → P.State → A × Manager × P.State) → Handler P A
  reply_manager f v =
      let (a, m, s) = f v.md_manager v.fs in (result a, record v { md_manager = m; fs = s })
