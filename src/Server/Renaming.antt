-- ===== src/Server/Renaming.antt =====
-- What becomes of the data of a file in Rename and Unlink of src/cbb/burst_buffer.cc.
use cbb.Prelude.{negsuc, ◌≡◌, ◌≢◌, true, false, Option, none, some, arith}
use cbb.Text.{Bytes}
use cbb.Text.Find.{eqb_iff}
use cbb.Posix.{Posix, IsLawful}
use cbb.Manager.{local_path, secondary_path}
use cbb.Exporter.CheckFile.{IsDisjoint}
use cbb.Server.{Server, result}
use cbb.Server.Names.{rename_file}

module _ (P : Posix) (content : P.State → Bytes → Option Bytes) (L : IsLawful P content) where
  -- With disjoint roots and the exporter's mutex free, renaming a regular local file onto another
  -- name that the secondary storage has answers -1 and destroys the file: it is gone from the local
  -- storage and from the secondary one under the old name, and the new name keeps its former data.
  pub rename_file_loses :
      (old_path new_path c : Bytes) (v : Server P)
      → IsDisjoint v.md_manager
      → v.lf_exporter.locked ≡ false
      → P.exists v.fs (local_path v.md_manager old_path) ≡ true
      → P.is_regular_file v.fs (local_path v.md_manager old_path) ≡ true
      → content v.fs (local_path v.md_manager old_path) ≡ some c
      → P.exists v.fs (secondary_path v.md_manager new_path) ≡ true
      → secondary_path v.md_manager new_path ≢ secondary_path v.md_manager old_path
      → let r = rename_file P old_path new_path v in
        (r.0 ≡ result (negsuc 0))
        × (content r.1.fs (local_path v.md_manager old_path) ≡ none)
        × (content r.1.fs (secondary_path v.md_manager old_path) ≡ none)
        × (content r.1.fs (secondary_path v.md_manager new_path)
            ≡ content v.fs (secondary_path v.md_manager new_path))
  unfolding rename_file
  rename_file_loses old_path new_path c v apart u x g l y other =
      let near = local_path v.md_manager old_path in
      let far = secondary_path v.md_manager old_path in
      let new = secondary_path v.md_manager new_path in
      let s = (P.fs_remove far v.fs).1 in
      let still : P.exists s new ≡ true =
        ground (arith, L.exists-fs_remove v.fs far new, eqb_iff new far) in
      let (e, stops) = L.copy_file_existing s near new still in
      let facts = λ (q : Bytes). L.content-fs_remove s near q in
      ground (
        arith,
        stops,
        facts near,
        facts far,
        facts new,
        L.content-fs_remove v.fs far far,
        L.content-fs_remove v.fs far new,
        eqb_iff near near,
        eqb_iff far far,
        eqb_iff far near,
        eqb_iff new near,
        eqb_iff new far,
        apart old_path old_path,
        apart old_path new_path,
      )
