-- ===== src/Server/Duplicated/Makes.antt =====
-- What one mkdir of DuplicateDirSecondaryToLocal in src/cbb/burst_buffer.cc leaves of both storages.
use cbb.Text.Find.{eqb_iff}
use cbb.Server.Directories.{make_local}
use cbb.Prelude.{
  inr, inl, Bool-cases, arith, refl, sym, ◌∙◌, ◌≡◌, Bool, true, false, ◌||◌, pos, List, [], ◌∷◌,
  ◌++◌,
}
use cbb.Text.{Bytes, eqb}
use cbb.Common.{ok, FileStat}
use cbb.Posix.{Posix, Dirent}
use cbb.Manager.{Manager}
use cbb.Exporter.Search.{join}
use cbb.Exporter.Found.{Node, Entries, file, dir, other, end, entry}
use cbb.Server.Duplicated.{HasNode, Has, MakesDirs}
use cbb.Server.Duplicated.Places.{At, At-join}

-- The paths that `told` tells from all of a set.
abbrev pub Told : (Bytes → Bytes → Bool) → (Bytes → Bool) → Bytes → Type 0
Told told made q = (p : Bytes) → made p ≡ true → told q p ≡ true

module _ (P : Posix) (m : Manager) (told : Bytes → Bytes → Bool) where
  -- What is read of the secondary storage.
  abbrev pub Same : P.State → P.State → Type 0
  Same s t =
      (q : Bytes)
      → let p = m.secondary_storage_root_path ++ q in
        (P.is_directory t p ≡ P.is_directory s p)
        × (P.lstat t p ≡ P.lstat s p)
        × (P.read_dir t p (pos 0) ≡ P.read_dir s p (pos 0))

  -- `t` has the directories of `s` and those of a set, and the secondary storage as it was; what is new
  -- is a directory, and among the paths that can be told from the set nothing else is new.
  pub record Makes (made : Bytes → Bool) (s t : P.State) : Type 0 where
    pub same : Same s t
    pub is_directory_made : (q : Bytes) → made q ≡ true → P.is_directory t q ≡ true
    pub is_directory_kept : (q : Bytes) → P.is_directory s q ≡ true → P.is_directory t q ≡ true
    pub is_directory_found :
        (q : Bytes) → P.exists s q ≡ false → P.exists t q ≡ true → P.is_directory t q ≡ true
    pub is_directory :
        (q : Bytes) → Told told made q → P.is_directory t q ≡ (P.is_directory s q || made q)
    pub exists : (q : Bytes) → Told told made q → P.exists t q ≡ (P.exists s q || made q)

  -- What stands at a path of a set is a directory.
  abbrev pub Fits : (Bytes → Bool) → P.State → Type 0
  Fits made s = (q : Bytes) → made q ≡ true → P.exists s q ≡ true → P.is_directory s q ≡ true

  pub Makes-none : (s : P.State) → Makes (λ q. false) s s
  Makes-none s = record {
    same = λ q. (refl, refl, refl);
    is_directory_made = λ q e. ground (arith, e);
    is_directory_kept = λ q e. e;
    is_directory_found = λ q e x. ground (arith, e, x);
    is_directory = λ q away. ground arith;
    exists = λ q away. ground arith;
  }

  Makes-trans_found :
      (f g : Bytes → Bool) (s t u : P.State) (q : Bytes)
      → Makes f s t
      → Makes g t u
      → P.exists s q ≡ false
      → P.exists u q ≡ true
      → P.is_directory u q ≡ true
  Makes-trans_found f g s t u q a b e x = elim (Bool-cases (P.exists t q)) [
    | inl there ↦ b.is_directory_kept q (a.is_directory_found q e there)
    | inr new ↦ b.is_directory_found q new x
  ]

  Makes-trans_made :
      (f g : Bytes → Bool) (s t u : P.State) (q : Bytes)
      → Makes f s t
      → Makes g t u
      → (f q || g q) ≡ true
      → P.is_directory u q ≡ true
  Makes-trans_made f g s t u q a b e = elim (Bool-cases (f q)) [
    | inl made ↦ b.is_directory_kept q (a.is_directory_made q made)
    | inr not_made ↦ b.is_directory_made q (ground arith)
  ]

  pub Makes-trans :
      (f g : Bytes → Bool) (s t u : P.State)
      → Makes f s t
      → Makes g t u
      → Makes (λ q. f q || g q) s u
  Makes-trans f g s t u a b = record {
    same = λ q. let (d, l, r) = a.same q in let (d', l', r') = b.same q in (d' ∙ d, l' ∙ l, r' ∙ r);
    is_directory_made = λ q e. Makes-trans_made f g s t u q a b e;
    is_directory_kept = λ q e. b.is_directory_kept q (a.is_directory_kept q e);
    is_directory_found = λ q e x. Makes-trans_found f g s t u q a b e x;
    is_directory = λ q away.
        let first = a.is_directory q (λ p e. away p (rw e refl)) in
        let second = b.is_directory q (λ p e. away p (ground (arith, e))) in
        ground (arith, first, second);
    exists = λ q away.
        let first = a.exists q (λ p e. away p (rw e refl)) in
        let second = b.exists q (λ p e. away p (ground (arith, e))) in
        ground (arith, first, second);
  }

  pub Fits-Makes :
      (f g h : Bytes → Bool) (s t : P.State)
      → Fits f s
      → ((q : Bytes) → h q ≡ true → f q ≡ true)
      → Makes g s t
      → Fits h t
  Fits-Makes f g h s t fits sub a q e x = elim (Bool-cases (P.exists s q)) [
    | inl there ↦ a.is_directory_kept q (fits q (sub q e) there)
    | inr new ↦ a.is_directory_found q new x
  ]

  mutual
    unfolding Has

    pub HasNode-Same :
        (node : Node) (sp lp name : Bytes) (s t : P.State)
        → At m sp lp
        → Same s t
        → HasNode P s sp name node
        → HasNode P t sp name node
    HasNode-Same file sp lp name s t (r, e, l, b) same has =
        let (d, _, _) = rw (sym e) at (same r) in rw d has
    HasNode-Same other sp lp name s t (r, e, l, b) same has =
        let (d, _, _) = rw (sym e) at (same r) in rw d has
    HasNode-Same (dir entries) sp lp name s t (r, e, l, b) same has =
        let (d, ls, rd) = rw (sym e) at (same r) in
        let (isdir, (st, stat), (ents, read, below)) = has in
        (
          rw d isdir,
          (st, ls ∙ stat),
          (ents, rd ∙ read, Has-Same entries sp lp ents s t (r, e, l, b) same below),
        )

    pub Has-Same :
        (entries : Entries) (sp lp : Bytes) (ents : List Dirent) (s t : P.State)
        → At m sp lp
        → Same s t
        → Has P s sp entries ents
        → Has P t sp entries ents
    Has-Same end sp lp [] s t at same has = tt
    Has-Same end sp lp (ent ∷ ents) s t at same has = absurd has
    Has-Same (entry name node more) sp lp [] s t at same has = absurd has
    Has-Same (entry name node more) sp lp (ent ∷ ents) s t at same has = (
      has.0,
      HasNode-Same node (join sp name) (join lp name) name s t (At-join m sp lp name at) same has.1,
      Has-Same more sp lp ents s t at same has.2,
    )

module _ (P : Posix) (m : Manager) (told : Bytes → Bytes → Bool) (L : MakesDirs P m told) where
  -- The one directory that was there.
  there-Makes :
      (here : Bytes) (s : P.State)
      → P.exists s here ≡ true
      → P.is_directory s here ≡ true
      → Makes P m told (λ q. eqb q here) s s
  there-Makes here s there d = record {
    same = λ q. (refl, refl, refl);
    is_directory_made = λ q e. ground (arith, eqb_iff q here);
    is_directory_kept = λ q e. e;
    is_directory_found = λ q e x. ground (arith, e, x);
    is_directory = λ q away. ground (arith, d, eqb_iff q here);
    exists = λ q away. ground (arith, there, eqb_iff q here);
  }

  -- The one directory that is made, or that was there.
  pub make_local-Makes :
      (sp lp name : Bytes) (s : P.State) (st : FileStat)
      → At m sp lp
      → P.is_directory s lp ≡ true
      → P.lstat s (join sp name) ≡ ok st
      → (P.exists s (join lp name) ≡ true → P.is_directory s (join lp name) ≡ true)
      → Makes P m told (λ q. eqb q (join lp name)) s (make_local P (join lp name) (join sp name) s)
  unfolding make_local
  make_local-Makes sp lp name s st at d l fits = elim (Bool-cases (P.exists s (join lp name))) [
    | inl there ↦ rw there (there-Makes (join lp name) s there (fits there))
    | inr new ↦
        let (r, e, place, b) = At-join m sp lp name at in
        let here = join lp name in
        let mode = st.st_mode in
        rw (new, l)
          (record {
            same = λ q. (
              rw place (L.is_directory_secondary-mkdir s r q mode),
              rw place (L.lstat_secondary-mkdir s r q mode),
              rw place (L.read_dir_secondary-mkdir s r q mode),
            );
            is_directory_made =
                λ q i. rw ((eqb_iff q here).0 i) (L.is_directory-mkdir_new s lp name mode d new);
            is_directory_kept = λ q i. L.is_directory-mkdir_kept s lp name q mode d new i;
            is_directory_found = λ q i x. L.exists-mkdir_found s lp name q mode d new i x;
            is_directory = λ q away.
                let only = away here ((eqb_iff here here).1 refl) in
                ground (arith, L.is_directory-mkdir s lp name q mode d new only);
            exists = λ q away.
                let only = away here ((eqb_iff here here).1 refl) in
                ground (arith, L.exists-mkdir s lp name q mode d new only);
          })
  ]
