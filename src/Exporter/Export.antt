-- ===== src/Exporter/Export.antt =====
-- What CheckLocalFiles of src/cbb/local_file_exporter.cc leaves on the secondary storage and in its
-- table.
use cbb.Exporter.Sweeps.{sweep_local, sweep_synced, sweep_current}
use cbb.Exporter.CheckFile.{
  check_file_copied, is_current, check_file_kept, check_file_either, named, lookup-erase_all,
  true≢false, Checked-cases, IsDisjoint, check_file_local,
}
use cbb.Exporter.{erase_all}
use mathlib.Core.Path.{subst}
use cbb.Prelude.{
  refl, sym, if◌then◌else◌, [], ◌∷◌, Option, ◌≡◌, ◌∙◌, ℕ, some, none, not, ◌&&◌, Bool, true, false,
  arith, inl, inr, Bool-cases,
}
use cbb.Text.{Bytes, eqb}
use cbb.Text.Find.{eqb_iff}
use cbb.StdMap.{Map, lookup}
use cbb.Posix.{Posix, IsLawful}
use cbb.Manager.{Manager, local_path, secondary_path}
use cbb.Exporter.{Exporter, returned, gone, kept, check_file, check_files, check_local_files}

module _ (P : Posix) (content : P.State → Bytes → Option Bytes) (L : IsLawful P content)
    (m : Manager) (apart : IsDisjoint m) where
  abbrev is_registered : Bytes → Map ℕ → Bool
  is_registered f files = elim (lookup f files) [ none ↦ false | some time ↦ true ]

  check_file_gone :
      (f : Bytes) (s : P.State) → check_file P m f s ≡ gone → P.exists s (local_path m f) ≡ false
  unfolding check_file
  check_file_gone f s h = ground arith

  check_file_kept_exists :
      (f : Bytes) (s t : P.State) → check_file P m f s ≡ kept t → P.exists s (local_path m f) ≡ true
  unfolding check_file
  check_file_kept_exists f s t h = ground arith

  -- What the loop leaves of a copy.
  abbrev exported : P.State → Bytes → Option Bytes
  exported s f =
      if is_current P (local_path m f) (secondary_path m f) s
      then content s (secondary_path m f)
      else content s (local_path m f)

  -- After the check of the file itself.
  rest_exports :
      (files : Map ℕ) (f : Bytes) (s t : P.State)
      → check_file P m f s ≡ kept t
      → (check_files P m files t).is_thrown ≡ false
      → content (check_files P m files t).state (secondary_path m f) ≡ exported s f
  rest_exports files f s t e h = elim (check_file_kept P m f s t e) [
    | inl (current, same) ↦
        rw current (rw same (sweep_current P content L m apart files f s (rw same at h) current))
    | inr (old, _, _) ↦
        let near = (check_file_local P content L m apart f f s t e).0 in
        let far = check_file_copied P content L m apart f f s t e ((eqb_iff _ _).1 refl) old in
        rw old (sweep_synced P content L m apart files f t h (far ∙ sym near) ∙ near)
  ]

  sweep_exports :
      (files : Map ℕ) (f : Bytes) (time : ℕ) (s : P.State)
      → (check_files P m files s).is_thrown ≡ false
      → lookup f files ≡ some time
      → P.exists s (local_path m f) ≡ true
      → content (check_files P m files s).state (secondary_path m f) ≡ exported s f
  unfolding check_files lookup
  sweep_exports [] f time s h r x = ground arith
  sweep_exports ((g, u) ∷ files) f time s h r x = elim (Checked-cases (check_file P m g s)) [
    | inl e ↦
        rw (e, check_files)
          (sweep_exports files f time s (rw (e, check_files) at h)
            (ground (arith, eqb_iff f g, check_file_gone g s e)) x)
    | inr (inl (t, e)) ↦ elim (Bool-cases (eqb f g)) [
      | inl same ↦
          let e' = subst (λ k. check_file P m k s ≡ kept t) (sym ((eqb_iff f g).0 same)) e in
          rw (e, check_files) (rest_exports files f s t e' (rw (e, check_files) at h))
      | inr other ↦
          let (near, there) = check_file_local P content L m apart g f s t e in
          let h' = rw (e, check_files) at h in
          let rest = sweep_exports files f time t h' (rw other at r) (there ∙ x) in
          rw (e, check_files)
            (elim (check_file_either P content L m apart g f s t e) [
              | inl (old, far) ↦
                  rw old (sweep_synced P content L m apart files f t h' (far ∙ sym near) ∙ near)
              | inr (far, is) ↦ rest ∙ rw (is, far, near) refl
            ])
    ]
    | inr (inr (t, e)) ↦ absurd (true≢false (rw (e, check_files) at h))
  ]

  -- The names to erase are those of the files that are gone.
  named-sweep :
      (files : Map ℕ) (f : Bytes) (s : P.State)
      → (check_files P m files s).is_thrown ≡ false
      → named f (check_files P m files s).erase_filename
        ≡ (not (P.exists s (local_path m f)) && is_registered f files)
  unfolding check_files named lookup
  named-sweep [] f s h = ground arith
  named-sweep ((g, u) ∷ files) f s h = elim (Checked-cases (check_file P m g s)) [
    | inl e ↦
        rw (e, check_files)
          (ground (
            arith,
            named-sweep files f s (rw (e, check_files) at h),
            check_file_gone g s e,
            eqb_iff f g,
          ))
    | inr (inl (t, e)) ↦
        rw (e, check_files)
          (ground (
            arith,
            named-sweep files f t (rw (e, check_files) at h),
            (check_file_local P content L m apart g f s t e).1,
            check_file_kept_exists g s t e,
            eqb_iff f g,
          ))
    | inr (inr (t, e)) ↦ absurd (true≢false (rw (e, check_files) at h))
  ]

  check_local_files_returned :
      (x y : Exporter) (s t : P.State)
      → check_local_files P m x s ≡ returned (y, t)
      → ((check_files P m x.local_files s).is_thrown ≡ false)
        × (y.local_files ≡ erase_all (check_files P m x.local_files s).erase_filename x.local_files)
        × (t ≡ (check_files P m x.local_files s).state)
  unfolding check_local_files
  check_local_files_returned x y s t h = ground arith

  -- The roots are disjoint. When CheckLocalFiles returns, every registered file that was on the
  -- local storage is on the secondary one with what was there before, if that was not older than the
  -- local file, and with the data of the local file otherwise; the local file has not changed; and
  -- a file stays registered exactly when it was registered and its local file exists.
  pub check_local_files_exports :
      (x y : Exporter) (s t : P.State) (f : Bytes) (time : ℕ)
      → check_local_files P m x s ≡ returned (y, t)
      → lookup f x.local_files ≡ some time
      → P.exists s (local_path m f) ≡ true
      → (content t (secondary_path m f) ≡ (
          if is_current P (local_path m f) (secondary_path m f) s
          then content s (secondary_path m f)
          else content s (local_path m f)))
        × (content t (local_path m f) ≡ content s (local_path m f))
        × ((g : Bytes)
            → lookup g y.local_files
              ≡ (if P.exists s (local_path m g) then lookup g x.local_files else none))
  check_local_files_exports x y s t f time h r e =
      let (fine, table, done) = check_local_files_returned x y s t h in
      let files = x.local_files in
      (
        rw done (sweep_exports files f time s fine r e),
        rw done (sweep_local P content L m apart files f s fine).0,
        λ g. rw (table, lookup-erase_all, named-sweep files g s fine) (ground arith),
      )
