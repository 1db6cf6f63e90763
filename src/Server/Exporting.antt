-- ===== src/Server/Exporting.antt =====
-- When the handlers of src/cbb/burst_buffer.cc put a file in the exporter's table or take it out.
use cbb.Prelude.{ℕ, ◌≡◌, true, false, not, ◌&&◌, none, some, arith, if◌then◌else◌, ◌==◌, ◌%◌}
use cbb.Text.{Bytes, eqb}
use cbb.Common.{ok, raw_result}
use cbb.StdMap.{lookup, erase}
use cbb.StdMap.Laws.{lookup-erase, lookup-assign}
use cbb.Posix.{Posix}
use cbb.Manager.{local_path}
use cbb.Manager.Table.{local_path-unregister_fd, holds, holds-close}
use cbb.Exporter.{Exporter}
use cbb.Server.{Server, result}
use cbb.Server.Files.{open_file, open_registered, release}

module _ (P : Posix) where
  open_registered_keeps :
      (path : Bytes) (flags : ℕ) (v : Server P)
      → (open_registered P path flags v).1.lf_exporter ≡ v.lf_exporter
  unfolding open_registered
  open_registered_keeps path flags v = ground arith

  -- With the exporter's mutex free, Open takes the path out of its table when the lowest bit of the
  -- flags is set, as in O_WRONLY, and leaves the table as it is otherwise, as for O_RDWR, which is
  -- 2.
  pub open_file_unregisters :
      (path q : Bytes) (flags : ℕ) (v : Server P)
      → v.lf_exporter.locked ≡ false
      → lookup q (open_file P path flags v).1.lf_exporter.local_files
        ≡ (if (flags % 2 == 1) && eqb q path then none else lookup q v.lf_exporter.local_files)
  unfolding open_file
  open_file_unregisters path q flags v u =
      let x = v.lf_exporter in
      let erased : Exporter = record x { local_files = erase path x.local_files } in
      ground (
        arith,
        open_registered_keeps path flags v,
        open_registered_keeps path flags (record v { lf_exporter = erased }),
        lookup-erase path q x.local_files,
      )

  -- With the exporter's mutex free, and the file still on the local storage with a time that can be
  -- read, Release answers what close answers, takes just the descriptor from the manager's table, and
  -- registers the file for export with that time.
  pub release_registers :
      (path q : Bytes) (fd x t : ℕ) (v : Server P)
      → v.lf_exporter.locked ≡ false
      → P.exists (P.close fd v.fs).1 (local_path v.md_manager path) ≡ true
      → P.last_write_time (P.close fd v.fs).1 (local_path v.md_manager path) ≡ ok t
      → let r = release P path fd v in
        (r.0 ≡ result (raw_result (P.close fd v.fs).0))
        × (lookup q r.1.lf_exporter.local_files
            ≡ (if eqb q path then some t else lookup q v.lf_exporter.local_files))
        × (holds r.1.md_manager q x ≡ (not (eqb q path && x == fd) && holds v.md_manager q x))
  unfolding release
  release_registers path q fd x t v u e l =
      let same = local_path-unregister_fd path path fd v.md_manager in
      (
        ground (arith, same),
        ground (arith, same, lookup-assign path q t v.lf_exporter.local_files),
        ground (arith, same, holds-close P path q fd x v.md_manager v.fs),
      )
