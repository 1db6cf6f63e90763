-- ===== src/Server/Duplicated/Ends.antt =====
-- DuplicateDirSecondaryToLocal of src/cbb/burst_buffer.cc on a tree of directories.
use cbb.Text.Find.{eqb_iff}
use cbb.Server.Directories.{
  duplicate_entries, duplicate_entry, duplicate_dir_secondary_to_local, make_local,
}
use cbb.Prelude.{
  Bool, ◌≤◌, zero, some, ◌<◌, suc, Option, arith, refl, sym, ◌∙◌, ap, ℕ, ◌≡◌, true, not, ◌&&◌, pos,
  List, [], ◌∷◌,
}
use cbb.Text.{Bytes, eqb}
use mathlib.Core.List.{append-nil}
use cbb.Common.{ok}
use cbb.Posix.{Posix, Dirent}
use cbb.Manager.{Manager}
use cbb.Exporter.Search.{is_dot, join}
use cbb.Exporter.Found.{depth_node, depth, Node, Entries, file, dir, other, end, entry}
use cbb.Server.Duplicated.{is_dir, is_dir_node, HasNode, Has, MakesDirs}
use cbb.Server.Duplicated.Places.{At, At-join, local_place}
use cbb.Server.Duplicated.Makes.{
  Makes, Fits, Makes-none, Makes-trans, Fits-Makes, make_local-Makes, HasNode-Same, Has-Same,
}

module _ (P : Posix) (m : Manager) (told : Bytes → Bytes → Bool) (L : MakesDirs P m told) where
  module _ (search : Bytes → P.State → Option P.State) where
    duplicate_entry_dir :
        (sp lp name : Bytes) (s : P.State)
        → At m sp lp
        → (P.is_directory s (join sp name) && not (is_dot name)) ≡ true
        → duplicate_entry P search m sp name s
          ≡ search (join sp name) (make_local P (join lp name) (join sp name) s)
    unfolding duplicate_entry
    duplicate_entry_dir sp lp name s at d = rw d (
        ap (λ p. search (join sp name) (make_local P p (join sp name) s))
          (local_place m sp lp name at))

    duplicate_entries_step :
        (sp name : Bytes) (ent : Dirent) (ents : List Dirent) (s t : P.State)
        → ent.d_name ≡ name
        → duplicate_entry P search m sp name s ≡ some t
        → duplicate_entries P search m sp (ent ∷ ents) s ≡ duplicate_entries P search m sp ents t
    unfolding duplicate_entries
    duplicate_entries_step sp name ent ents s t n e = ground (arith, n, e)

  duplicate_dir_read :
      (fuel : ℕ) (path : Bytes) (s : P.State) (ents : List Dirent)
      → P.read_dir s path (pos 0) ≡ ok ents
      → duplicate_dir_secondary_to_local P (suc fuel) m path s
        ≡ duplicate_entries P (duplicate_dir_secondary_to_local P fuel m) m path ents s
  unfolding duplicate_dir_secondary_to_local
  duplicate_dir_read fuel path s ents e = ground (arith, e)

  mutual
    unfolding duplicate_entry duplicate_entries Has depth is_dir

    entry-Makes :
        (node : Node) (fuel : ℕ) (sp lp name : Bytes) (s : P.State)
        → At m sp lp
        → HasNode P s (join sp name) name node
        → depth_node node ≤ fuel
        → P.is_directory s lp ≡ true
        → Fits P m told (is_dir_node (join lp name) node) s
        → (t : P.State) × (duplicate_entry P (duplicate_dir_secondary_to_local P fuel m) m sp name s
            ≡ some t)
          × Makes P m told (is_dir_node (join lp name) node) s t
    entry-Makes file fuel sp lp name s at has le d fits = (s, rw has refl, Makes-none P m told s)
    entry-Makes other fuel sp lp name s at has le d fits = (s, rw has refl, Makes-none P m told s)
    entry-Makes (dir entries) zero sp lp name s at has le d fits = absurd (omega arith)
    entry-Makes (dir entries) (suc fuel) sp lp name s at has le d fits =
        let here = join lp name in
        let below = At-join m sp lp name at in
        let first : P.State = make_local P here (join sp name) s in
        let made =
          make_local-Makes P m told L sp lp name s has.1.0 at d has.1.1
            (fits here (ground (arith, eqb_iff here here))) in
        let shown =
          HasNode-Same P m told (dir entries) (join sp name) here name s first below made.same
            has in
        let (ents, read, more) = shown.2 in
        let (t, found, makes) =
          entries-Makes entries fuel (join sp name) here ents first below more (omega arith)
            (made.is_directory_made here ((eqb_iff here here).1 refl))
            (Fits-Makes P m told (is_dir_node here (dir entries)) (λ q. eqb q here)
              (is_dir here entries) s first fits (λ q e. ground (arith, e)) made) in
        (
          t,
          duplicate_entry_dir (duplicate_dir_secondary_to_local P (suc fuel) m) sp lp name s at
                has.0
              ∙ duplicate_dir_read fuel (join sp name) first ents read
              ∙ found,
          Makes-trans P m told (λ q. eqb q here) (is_dir here entries) s first t made makes,
        )

    entries-Makes :
        (entries : Entries) (fuel : ℕ) (sp lp : Bytes) (ents : List Dirent) (s : P.State)
        → At m sp lp
        → Has P s sp entries ents
        → depth entries ≤ fuel
        → P.is_directory s lp ≡ true
        → Fits P m told (is_dir lp entries) s
        → (t : P.State) × (duplicate_entries P
              (duplicate_dir_secondary_to_local P fuel m)
              m
              sp
              ents
              s
            ≡ some t)
          × Makes P m told (is_dir lp entries) s t
    entries-Makes end fuel sp lp [] s at has le d fits = (s, refl, Makes-none P m told s)
    entries-Makes end fuel sp lp (ent ∷ ents) s at has le d fits = absurd has
    entries-Makes (entry name node more) fuel sp lp [] s at has le d fits = absurd has
    entries-Makes (entry name node more) fuel sp lp (ent ∷ ents) s at has le d fits =
        let one = is_dir_node (join lp name) node in
        let (t, e, made) =
          entry-Makes node fuel sp lp name s at has.1 (omega arith) d
            (λ q i x. fits q (ground (arith, i)) x) in
        let (u, f, rest) =
          entries-Makes more fuel sp lp ents t at
            (Has-Same P m told more sp lp ents s t at made.same has.2) (omega arith)
            (made.is_directory_kept lp d)
            (Fits-Makes P m told (is_dir lp (entry name node more)) one (is_dir lp more) s t fits
              (λ q i. ground (arith, i)) made) in
        (
          u,
          duplicate_entries_step (duplicate_dir_secondary_to_local P fuel m) sp name ent ents s t
                has.0 e
              ∙ f,
          Makes-trans P m told one (is_dir lp more) s t u made rest,
        )

  -- On storages that lie apart, with fuel for the depth of the secondary one and a local root that
  -- is a directory, when mkdir of a new name succeeds and the local storage has nothing but
  -- directories under the names of the directories of the secondary one,
  -- DuplicateDirSecondaryToLocal ends; the local storage then has the directories that it had and
  -- those of the secondary one, and, among the paths that are no other spelling of one of these, no
  -- others; and the secondary one is read as before.
  pub duplicate_dir_secondary_to_local-Makes :
      (entries : Entries) (fuel : ℕ) (ents : List Dirent) (s : P.State)
      → P.read_dir s m.secondary_storage_root_path (pos 0) ≡ ok ents
      → Has P s m.secondary_storage_root_path entries ents
      → depth entries < fuel
      → P.is_directory s m.local_storage_root_path ≡ true
      → Fits P m told (is_dir m.local_storage_root_path entries) s
      → (t : P.State) × (duplicate_dir_secondary_to_local P fuel m m.secondary_storage_root_path s
          ≡ some t)
        × Makes P m told (is_dir m.local_storage_root_path entries) s t
  duplicate_dir_secondary_to_local-Makes entries zero ents s r has le d fits = absurd (omega arith)
  duplicate_dir_secondary_to_local-Makes entries (suc fuel) ents s r has le d fits =
      let (t, e, makes) =
        entries-Makes entries fuel m.secondary_storage_root_path m.local_storage_root_path ents s
          (
            [],
            sym (append-nil m.secondary_storage_root_path),
            sym (append-nil m.local_storage_root_path),
            tt,
          )
          has (omega arith) d fits in
      (t, duplicate_dir_read fuel m.secondary_storage_root_path s ents r ∙ e, makes)
