-- ===== src/Server/Moving.antt =====
-- What becomes of the data of a file below a directory in Rename of src/cbb/burst_buffer.cc.
use cbb.Prelude.{
  ap, ◌⊎◌, ℕ, ◌≡◌, ◌∙◌, refl, true, false, Bool, ◌||◌, List, [], ◌∷◌, ◌++◌, Option, none, some,
  if◌then◌else◌, arith, inl, inr,
}
use cbb.Text.{Bytes, eqb, is_prefix}
use cbb.Common.{SysResult, ok, fail}
use cbb.Posix.{Posix}
use cbb.Manager.{Manager, local_path, secondary_path}
use cbb.Exporter.{unregister_all}
use cbb.Server.{Server}
use cbb.Server.Directories.{
  with_slash, copy_entry, copy_entries, create_entries, move_directory, rename_directory, rename,
}

-- Whether a path is another one, or lies below it.
abbrev pub is_below : Bytes → Bytes → Bool
is_below p q = eqb q p || is_prefix (p ++ (b'/' ∷ [])) q

-- remove_all takes away a directory with all below it, and making directories changes no file.
pub record RemovesTrees (P : Posix) (content : P.State → Bytes → Option Bytes) : Type 0 where
  pub content-remove_all :
      (s t : P.State) (p q : Bytes) (n : ℕ)
      → P.remove_all p s ≡ (ok n, t)
      → content t q ≡ (if is_below p q then none else content s q)
  pub content-create_directories :
      (s : P.State) (p q : Bytes) → content (P.create_directories p s).1 q ≡ content s q

SysResult-elim : {A : Type 0} (r : SysResult A) → ((a : A) × (r ≡ ok a)) ⊎ ((e : ℕ) × (r ≡ fail e))
SysResult-elim (ok a) = inl (a, refl)
SysResult-elim (fail e) = inr (e, refl)

module _ (P : Posix) where
  copy_entry_dir :
      (a local second : Bytes) (s : P.State)
      → P.is_directory s a ≡ true
      → copy_entry P a local second s
        ≡ (some (local ++ with_slash P (P.filename a), second ++ with_slash P (P.filename a)), s)
  unfolding copy_entry
  copy_entry_dir a local second s d = rw d

  copy_entry_missed :
      (x local second : Bytes) (s : P.State)
      → P.is_directory s x ≡ false
      → P.exists s (local ++ P.filename x) ≡ false
      → copy_entry P x local second s ≡ (some (local, second), s)
  unfolding copy_entry
  copy_entry_missed x local second s d missing = rw (d, missing)

  copy_entries_step :
      (path local second local' second' : Bytes) (paths : List Bytes) (s t : P.State)
      → copy_entry P path local second s ≡ (some (local', second'), t)
      → copy_entries P (path ∷ paths) local second s ≡ copy_entries P paths local' second' t
  unfolding copy_entries
  copy_entries_step path local second local' second' paths s t h =
      ap
        (λ (r : Option (Bytes × Bytes) × P.State).
          let done : Option (Unit {0}) × P.State = elim r.0 [
            | none ↦ (none, r.1)
            | some p ↦ copy_entries P paths p.0 p.1 r.1
          ] in
          done)
        h

  -- Two directories and a file, whose name is looked for below both.
  copy_entries_missed :
      (a b x local second : Bytes) (s : P.State)
      → P.is_directory s a ≡ true
      → P.is_directory s b ≡ true
      → P.is_directory s x ≡ false
      → P.exists s
          (local ++ with_slash P (P.filename a) ++ with_slash P (P.filename b) ++ P.filename x)
        ≡ false
      → copy_entries P (a ∷ b ∷ x ∷ []) local second s ≡ (some tt, s)
  unfolding copy_entries
  copy_entries_missed a b x local second s da db dx missing =
      let below = λ (p : Bytes). p ++ with_slash P (P.filename a) in
      let last = λ (p : Bytes). below p ++ with_slash P (P.filename b) in
      copy_entries_step a local second (below local) (below second) (b ∷ x ∷ []) s s
        (copy_entry_dir a local second s da)
      ∙ copy_entries_step b (below local) (below second) (last local) (last second) (x ∷ []) s s
          (copy_entry_dir b (below local) (below second) s db)
      ∙ copy_entries_step x (last local) (last second) (last local) (last second) [] s s
          (copy_entry_missed x (last local) (last second) s dx missing)

  rename_directory_fs :
      (fuel : ℕ) (old_path new_path : Bytes) (v : Server P)
      → v.lf_exporter.locked ≡ false
      → (rename_directory P fuel old_path new_path v).1.fs
        ≡ (move_directory P v.md_manager old_path new_path v.fs).1
  unfolding rename_directory unregister_all
  rename_directory_fs fuel old_path new_path v u = ground arith

  module _ (content : P.State → Bytes → Option Bytes) (L : RemovesTrees P content) where
    create_entries_keeps :
        (m : Manager) (paths : List Bytes) (local q : Bytes) (s : P.State)
        → content (create_entries P m paths local s).1 q ≡ content s q
    unfolding create_entries
    create_entries_keeps m [] local q s = refl
    create_entries_keeps m (path ∷ paths) local q s =
        let below = local ++ with_slash P (P.filename path) in
        let made = (P.create_directories (local_path m below) s).1 in
        ground (
          arith,
          L.content-create_directories s (local_path m below) q,
          create_entries_keeps m paths below q made,
          create_entries_keeps m paths local q s,
        )

    -- Into a directory that the secondary storage has, when nothing is copied.
    move_directory_keeps :
        (m : Manager) (old_path new_path q : Bytes) (entries : List Bytes) (s t : P.State) (n : ℕ)
        → P.exists s (secondary_path m new_path) ≡ true
        → P.is_directory s (secondary_path m new_path) ≡ true
        → P.recursive_entries s (local_path m old_path) ≡ ok entries
        → copy_entries P entries
            (with_slash P (local_path m old_path))
            (with_slash P (secondary_path m new_path))
            s
          ≡ (some tt, s)
        → P.remove_all (local_path m old_path) s ≡ (ok n, t)
        → content (move_directory P m old_path new_path s).1 q ≡ content t q
    unfolding move_directory
    move_directory_keeps m old_path new_path q entries s t n e d es skipped gone =
        let made = P.create_directories (local_path m (with_slash P new_path)) t in
        let kept = L.content-create_directories t (local_path m (with_slash P new_path)) q in
        elim (SysResult-elim (P.recursive_entries made.1 (secondary_path m new_path))) [
          | inr (n', r) ↦ ground (arith, skipped, kept)
          | inl (paths, r) ↦
              ground (
                arith,
                skipped,
                kept,
                create_entries_keeps m paths (with_slash P new_path) q made.1,
              )
        ]

    -- A local directory is renamed into one that the secondary storage has, and remove_all takes it
    -- away. It has, in the order of the iterator, two directories and a file, which is not also found
    -- under its name below both of them. Then this file is gone afterwards, and a path that is not
    -- below the old directory has what it had before: the data is copied nowhere.
    pub rename_loses :
        (fuel : ℕ) (old_path new_path a b x q : Bytes) (v : Server P) (t : P.State) (n : ℕ)
        → v.lf_exporter.locked ≡ false
        → P.exists v.fs (local_path v.md_manager old_path) ≡ true
        → P.is_directory v.fs (local_path v.md_manager old_path) ≡ true
        → P.exists v.fs (secondary_path v.md_manager new_path) ≡ true
        → P.is_directory v.fs (secondary_path v.md_manager new_path) ≡ true
        → P.recursive_entries v.fs (local_path v.md_manager old_path) ≡ ok (a ∷ b ∷ x ∷ [])
        → P.is_directory v.fs a ≡ true
        → P.is_directory v.fs b ≡ true
        → P.is_directory v.fs x ≡ false
        → P.exists v.fs (
            with_slash P (local_path v.md_manager old_path)
            ++ with_slash P (P.filename a)
            ++ with_slash P (P.filename b)
            ++ P.filename x)
          ≡ false
        → P.remove_all (local_path v.md_manager old_path) v.fs ≡ (ok n, t)
        → is_below (local_path v.md_manager old_path) x ≡ true
        → is_below (local_path v.md_manager old_path) q ≡ false
        → let r = rename P fuel old_path new_path v in
          (content r.1.fs x ≡ none) × (content r.1.fs q ≡ content v.fs q)
    unfolding rename
    rename_loses fuel old_path new_path a b x q v t n u e d e' d' es da db dx missing gone below
          apart =
        let m = v.md_manager in
        let skipped =
          copy_entries_missed a b x (with_slash P (local_path m old_path))
            (with_slash P (secondary_path m new_path)) v.fs da db dx missing in
        let start : (rename P fuel old_path new_path v).1.fs
            ≡ (move_directory P m old_path new_path v.fs).1 =
          ground (arith, rename_directory_fs fuel old_path new_path v u) in
        let final = λ (p : Bytes).
          move_directory_keeps m old_path new_path p (a ∷ b ∷ x ∷ []) v.fs t n e' d' es skipped gone
          ∙ L.content-remove_all v.fs t (local_path m old_path) p n gone in
        (
          ap (λ s. content s x) start ∙ final x ∙ rw below refl,
          ap (λ s. content s q) start ∙ final q ∙ rw apart refl,
        )
