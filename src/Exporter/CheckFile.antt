-- ===== src/Exporter/CheckFile.antt =====
-- The loop of CheckLocalFiles in src/cbb/local_file_exporter.cc: what one check leaves on the two
-- storages.
use cbb.Text.Find.{eqb_iff}
use cbb.Prelude.{
  leb, ◌&&◌, sym, Bool-cases, ◌∙◌, true, inr, inl, ◌++◌, ap, Option, none, [], ◌∷◌, if◌then◌else◌,
  ℕ, List, ◌≡◌, ◌≢◌, refl, ◌⊎◌, Bool, false, ◌||◌, arith,
}
use cbb.Text.{Bytes, eqb}
use cbb.Common.{SysResult, ok, fail}
use cbb.StdMap.{Map, lookup, erase}
use cbb.StdMap.Laws.{lookup-erase}
use cbb.Posix.{IsLawful, Posix}
use cbb.Manager.{Manager, local_path, secondary_path}
use cbb.Exporter.{gone, Checked, kept, thrown, erase_all, check_file}

unfoldable pub named : Bytes → List Bytes → Bool
named f [] = false
named f (g ∷ names) = eqb f g || named f names

pub lookup-erase_all :
    (f : Bytes) (names : List Bytes) (files : Map ℕ)
    → lookup f (erase_all names files) ≡ (if named f names then none else lookup f files)
unfolding erase_all named
lookup-erase_all f [] files = refl
lookup-erase_all f (g ∷ names) files =
    ground (arith, lookup-erase_all f names (erase g files), lookup-erase g f files)

-- No path of the local storage is one of the secondary storage.
abbrev pub IsDisjoint : Manager → Type 0
IsDisjoint m = (p q : Bytes) → local_path m p ≢ secondary_path m q

unfoldable pub not_older : SysResult ℕ → SysResult ℕ → Bool
not_older (ok last_update_src) (ok last_update_dst) = leb last_update_src last_update_dst
not_older _ _ = false

module _ (P : Posix) where
  -- Whether the copy of a file is there and not older than the file.
  unfoldable pub is_current : Bytes → Bytes → P.State → Bool
  unfolding not_older
  is_current source destination s =
      P.exists s destination
      && not_older (P.last_write_time s source) (P.last_write_time s destination)

  copy_result :
      (r : SysResult ℕ × P.State) (t : P.State)
      → (let (a, u) = r in
          let c : Checked P.State = elim a [ ok n ↦ kept u | fail e ↦ thrown u ] in c)
        ≡ kept t
      → (n : ℕ) × (r ≡ (ok n, t))
  copy_result (ok n, u) t h = (n, ground arith)
  copy_result (fail e, u) t h = ground arith

  -- A check that goes well leaves a current copy, and makes the copy otherwise.
  pub check_file_kept :
      (m : Manager) (g : Bytes) (s t : P.State)
      → check_file P m g s ≡ kept t
      → let source = local_path m g in
        let destination = secondary_path m g in
        ((is_current source destination s ≡ true) × (t ≡ s))
        ⊎ ((is_current source destination s ≡ false)
            × (n : ℕ) × (P.copy_file_overwrite source destination s ≡ (ok n, t)))
  unfolding check_file is_current not_older
  check_file_kept m g s t h =
      ground (arith, copy_result (P.copy_file_overwrite (local_path m g) (secondary_path m g) s) t)

pub true≢false : true ≢ false
true≢false e = cc

pub Checked-cases {ℓ} :
    {S : Type ℓ} (c : Checked S)
    → (c ≡ gone) ⊎ (((t : S) × (c ≡ kept t)) ⊎ ((t : S) × (c ≡ thrown t)))
Checked-cases gone = inl refl
Checked-cases (kept t) = inr (inl (t, refl))
Checked-cases (thrown t) = inr (inr (t, refl))

append_cancel : (xs ys zs : Bytes) → xs ++ ys ≡ xs ++ zs → ys ≡ zs
append_cancel [] ys zs h = h
append_cancel (x ∷ xs) ys zs h = append_cancel xs ys zs (cc)

same_local :
    (m : Manager) (f g : Bytes)
    → secondary_path m f ≡ secondary_path m g
    → local_path m f ≡ local_path m g
unfolding local_path secondary_path
same_local m f g h =
    ap (λ rest. m.local_storage_root_path ++ rest)
      (append_cancel m.secondary_storage_root_path _ _ h)

module _ (P : Posix) (content : P.State → Bytes → Option Bytes) (L : IsLawful P content)
    (m : Manager) (apart : IsDisjoint m) where
  -- A check of one file changes no local file, neither its data nor that it exists.
  pub check_file_local :
      (g f : Bytes) (s t : P.State)
      → check_file P m g s ≡ kept t
      → (content t (local_path m f) ≡ content s (local_path m f))
        × (P.exists t (local_path m f) ≡ P.exists s (local_path m f))
  check_file_local g f s t h = elim (check_file_kept P m g s t h) [
    | inl (_, e) ↦ rw e (refl, refl)
    | inr (_, n, e) ↦ ground (
      arith,
      L.content-copy_file_overwrite s t _ _ n e (local_path m f),
      L.exists-copy_file_overwrite s t _ _ n e (local_path m f),
      eqb_iff (local_path m f) (secondary_path m g),
      apart f g,
    )
  ]

  -- The check of a file that has no current copy makes one.
  pub check_file_copied :
      (g f : Bytes) (s t : P.State)
      → check_file P m g s ≡ kept t
      → eqb (secondary_path m f) (secondary_path m g) ≡ true
      → is_current P (local_path m f) (secondary_path m f) s ≡ false
      → content t (secondary_path m f) ≡ content s (local_path m f)
  check_file_copied g f s t h same old =
      let far : secondary_path m f ≡ secondary_path m g = (eqb_iff _ _).0 same in
      let near = same_local m f g far in
      elim (check_file_kept P m g s t h) [
        | inl (current, _) ↦ absurd (true≢false (sym current ∙ rw (near, far) at old))
        | inr (_, n, e) ↦
            L.content-copy_file_overwrite s t _ _ n e (secondary_path m f) ∙ rw (same, near) refl
      ]

  -- A check that makes no copy for a path leaves it current or not, as it was.
  check_file_untouched :
      (g f : Bytes) (s t : P.State)
      → check_file P m g s ≡ kept t
      → eqb (secondary_path m f) (secondary_path m g) ≡ false
      → (content t (secondary_path m f) ≡ content s (secondary_path m f))
        × (is_current P (local_path m f) (secondary_path m f) t
            ≡ is_current P (local_path m f) (secondary_path m f) s)
  unfolding is_current
  check_file_untouched g f s t h other = elim (check_file_kept P m g s t h) [
    | inl (_, e) ↦ rw e (refl, refl)
    | inr (_, n, e) ↦
        let away : eqb (local_path m f) (secondary_path m g) ≡ false =
          ground (arith, eqb_iff (local_path m f) (secondary_path m g), apart f g) in
        (
          L.content-copy_file_overwrite s t _ _ n e (secondary_path m f) ∙ rw other refl,
          rw
              (
                L.exists-copy_file_overwrite s t _ _ n e (secondary_path m f),
                other,
                L.last_write_time-copy_file_overwrite s t _ _ n e (secondary_path m f) other,
                L.last_write_time-copy_file_overwrite s t _ _ n e (local_path m f) away,
              )
              refl,
        )
  ]

  -- A current copy is left by every check.
  pub check_file_current :
      (g f : Bytes) (s t : P.State)
      → check_file P m g s ≡ kept t
      → is_current P (local_path m f) (secondary_path m f) s ≡ true
      → (content t (secondary_path m f) ≡ content s (secondary_path m f))
        × (is_current P (local_path m f) (secondary_path m f) t ≡ true)
  check_file_current g f s t h current =
      elim (Bool-cases (eqb (secondary_path m f) (secondary_path m g))) [
        | inr other ↦ let (text, is) = check_file_untouched g f s t h other in (text, is ∙ current)
        | inl same ↦
            let far : secondary_path m f ≡ secondary_path m g = (eqb_iff _ _).0 same in
            let near = same_local m f g far in
            elim (check_file_kept P m g s t h) [
              | inl (_, e) ↦ rw e (refl, current)
              | inr (old, _, _) ↦ absurd (true≢false (sym (rw (near, far) at current) ∙ old))
            ]
      ]

  -- A copy with the data of its local file keeps them.
  pub check_file_synced :
      (g f : Bytes) (s t : P.State)
      → check_file P m g s ≡ kept t
      → content s (secondary_path m f) ≡ content s (local_path m f)
      → content t (secondary_path m f) ≡ content t (local_path m f)
  check_file_synced g f s t h synced =
      let unchanged = sym (check_file_local g f s t h).0 in
      elim (Bool-cases (eqb (secondary_path m f) (secondary_path m g))) [
        | inr other ↦ (check_file_untouched g f s t h other).0 ∙ synced ∙ unchanged
        | inl same ↦ elim (Bool-cases (is_current P (local_path m f) (secondary_path m f) s)) [
          | inl current ↦ (check_file_current g f s t h current).0 ∙ synced ∙ unchanged
          | inr old ↦ check_file_copied g f s t h same old ∙ unchanged
        ]
      ]

  -- What a check of another file does to a copy: it makes it, or leaves it as it was.
  pub check_file_either :
      (g f : Bytes) (s t : P.State)
      → check_file P m g s ≡ kept t
      → ((is_current P (local_path m f) (secondary_path m f) s ≡ false)
          × (content t (secondary_path m f) ≡ content s (local_path m f)))
        ⊎ ((content t (secondary_path m f) ≡ content s (secondary_path m f))
            × (is_current P (local_path m f) (secondary_path m f) t
                ≡ is_current P (local_path m f) (secondary_path m f) s))
  check_file_either g f s t h = elim (Bool-cases (eqb (secondary_path m f) (secondary_path m g))) [
    | inr other ↦ inr (check_file_untouched g f s t h other)
    | inl same ↦ elim (Bool-cases (is_current P (local_path m f) (secondary_path m f) s)) [
      | inl current ↦
          let (text, is) = check_file_current g f s t h current in inr (text, is ∙ sym current)
      | inr old ↦ inl (old, check_file_copied g f s t h same old)
    ]
  ]
