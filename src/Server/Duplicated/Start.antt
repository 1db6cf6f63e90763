-- ===== src/Server/Duplicated/Start.antt =====
-- The constructor of BurstBuffer in src/cbb/burst_buffer.cc, over trees of both storages.
use cbb.Prelude.{
  Bool, ◌∙◌, ℕ, ◌<◌, ◌≡◌, refl, true, false, pos, List, [], none, some, if◌then◌else◌, arith,
}
use cbb.Text.{Bytes}
use cbb.Common.{ok}
use cbb.StdMap.{lookup}
use cbb.Posix.{Posix, Dirent}
use cbb.Manager.{Manager, local_path}
use cbb.Exporter.{Exporter, returned}
use cbb.Exporter.Search
use cbb.Exporter.Search.{research_local_files}
use cbb.Exporter.Found.{Entries, depth, Shows, is_file, time_of, research_local_files_finds}
use cbb.Server.{Server}
use cbb.Server.Directories.{start, duplicate_dir_secondary_to_local}
use cbb.Server.Duplicated.{is_dir, Has, MakesDirs}
use cbb.Server.Duplicated.Makes.{Makes, Fits}
use cbb.Server.Duplicated.Ends.{duplicate_dir_secondary_to_local-Makes}

abbrev pub manager : Bytes → Bytes → Manager
manager local_root secondary_root = record {
  table = [];
  local_storage_root_path = local_root;
  secondary_storage_root_path = secondary_root;
}

create_research :
    (P : Posix) (m : Manager) (fuel : ℕ) (s : P.State)
    → Search.create P fuel m s
      ≡ research_local_files P fuel m s (record { local_files = []; locked = false })
unfolding Search.create research_local_files
create_research P m fuel s = refl

start_steps :
    (P : Posix) (local_root secondary_root : Bytes) (fuel : ℕ) (s t : P.State) (x : Exporter)
    → duplicate_dir_secondary_to_local P fuel (manager local_root secondary_root) secondary_root s
      ≡ some t
    → Search.create P fuel (manager local_root secondary_root) t ≡ returned x
    → start P fuel local_root secondary_root s
      ≡ some (record { md_manager = manager local_root secondary_root; lf_exporter = x; fs = t })
unfolding start
start_steps P local_root secondary_root fuel s t x e f = ground (arith, e, f)

module _ (P : Posix) (local_root secondary_root : Bytes) (told : Bytes → Bytes → Bool)
    (L : MakesDirs P (manager local_root secondary_root) told) where
  -- The server that starts: no open descriptor, the exporter's mutex free, the directories of the
  -- secondary storage made on the local one, and the regular files of a tree registered.
  pub record Starts (dirs locals : Entries) (s : P.State) (v : Server P) : Type 0 where
    pub md_manager : v.md_manager ≡ manager local_root secondary_root
    pub locked : v.lf_exporter.locked ≡ false
    pub makes : Makes P (manager local_root secondary_root) told (is_dir local_root dirs) s v.fs
    pub local_files :
        (q : Bytes)
        → lookup q v.lf_exporter.local_files ≡ (
            if is_file [] locals q
            then time_of P (manager local_root secondary_root) v.fs q
            else none)

  -- On storages that lie apart, with fuel for the depth of both and a local root that is a
  -- directory, when mkdir of a new name succeeds, the local storage has nothing but directories
  -- under the names of the directories of the secondary one, and it shows a given tree once those
  -- are made, the constructor returns a server with no open descriptor and the mutex free, whose
  -- local storage has its directories and those of the secondary one, and whose exporter has
  -- exactly the regular files of the local tree that exist with a time that can be read, with that
  -- time.
  pub start_registers :
      (dirs locals : Entries) (fuel : ℕ) (ents : List Dirent) (s : P.State)
      → P.read_dir s secondary_root (pos 0) ≡ ok ents
      → Has P s secondary_root dirs ents
      → depth dirs < fuel
      → depth locals < fuel
      → P.is_directory s local_root ≡ true
      → Fits P (manager local_root secondary_root) told (is_dir local_root dirs) s
      → ((t : P.State)
          → duplicate_dir_secondary_to_local P fuel
              (manager local_root secondary_root)
              secondary_root
              s
            ≡ some t
          → Makes P (manager local_root secondary_root) told (is_dir local_root dirs) s t
          → let root = local_path (manager local_root secondary_root) [] in
            (found : List Dirent) × (P.read_dir t root (pos 0) ≡ ok found)
            × Shows P t root locals found)
      → (v : Server P) × (start P fuel local_root secondary_root s ≡ some v)
        × Starts dirs locals s v
  start_registers dirs locals fuel ents s r has deep deep' d fits shown =
      let m = manager local_root secondary_root in
      let empty : Exporter = record { local_files = []; locked = false } in
      let (t, done, makes) =
        duplicate_dir_secondary_to_local-Makes P m told L dirs fuel ents s r has deep d fits in
      let (found, read, shows) = shown t done makes in
      let (x, e, free, files) =
        research_local_files_finds P m t locals fuel found empty read shows deep' refl in
      (
        record { md_manager = m; lf_exporter = x; fs = t },
        start_steps P local_root secondary_root fuel s t x done (create_research P m fuel t ∙ e),
        record { md_manager = refl; locked = free; makes = makes; local_files = files },
      )
