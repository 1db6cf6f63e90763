-- ===== src/Exporter/Sweeps.antt =====
-- The loop of CheckLocalFiles in src/cbb/local_file_exporter.cc: what all checks leave on the two
-- storages.
use cbb.Exporter.CheckFile.{
  check_file_local, check_file_synced, check_file_current, Checked-cases, true≢false, IsDisjoint,
  is_current,
}
use cbb.Prelude.{◌∙◌, true, inr, inl, Option, [], ◌∷◌, ℕ, ◌≡◌, refl, false}
use cbb.Text.{Bytes}
use cbb.StdMap.{Map}
use cbb.Posix.{IsLawful, Posix}
use cbb.Manager.{Manager, local_path, secondary_path}
use cbb.Exporter.{check_files, check_file}

module _ (P : Posix) (content : P.State → Bytes → Option Bytes) (L : IsLawful P content)
    (m : Manager) (apart : IsDisjoint m) where
  pub sweep_local :
      (files : Map ℕ) (f : Bytes) (s : P.State)
      → (check_files P m files s).is_thrown ≡ false
      → (content (check_files P m files s).state (local_path m f) ≡ content s (local_path m f))
        × (P.exists (check_files P m files s).state (local_path m f) ≡ P.exists s (local_path m f))
  unfolding check_files
  sweep_local [] f s h = (refl, refl)
  sweep_local ((g, time) ∷ files) f s h = elim (Checked-cases (check_file P m g s)) [
    | inl e ↦ rw (e, check_files) (sweep_local files f s (rw (e, check_files) at h))
    | inr (inl (t, e)) ↦
        let rest = sweep_local files f t (rw (e, check_files) at h) in
        let here = check_file_local P content L m apart g f s t e in
        rw (e, check_files) (rest.0 ∙ here.0, rest.1 ∙ here.1)
    | inr (inr (t, e)) ↦ absurd (true≢false (rw (e, check_files) at h))
  ]

  pub sweep_synced :
      (files : Map ℕ) (f : Bytes) (s : P.State)
      → (check_files P m files s).is_thrown ≡ false
      → content s (secondary_path m f) ≡ content s (local_path m f)
      → content (check_files P m files s).state (secondary_path m f) ≡ content s (local_path m f)
  unfolding check_files
  sweep_synced [] f s h synced = synced
  sweep_synced ((g, time) ∷ files) f s h synced = elim (Checked-cases (check_file P m g s)) [
    | inl e ↦ rw (e, check_files) (sweep_synced files f s (rw (e, check_files) at h) synced)
    | inr (inl (t, e)) ↦
        rw (e, check_files)
          (sweep_synced files f t (rw (e, check_files) at h)
              (check_file_synced P content L m apart g f s t e synced)
            ∙ (check_file_local P content L m apart g f s t e).0)
    | inr (inr (t, e)) ↦ absurd (true≢false (rw (e, check_files) at h))
  ]

  pub sweep_current :
      (files : Map ℕ) (f : Bytes) (s : P.State)
      → (check_files P m files s).is_thrown ≡ false
      → is_current P (local_path m f) (secondary_path m f) s ≡ true
      → content (check_files P m files s).state (secondary_path m f)
        ≡ content s (secondary_path m f)
  unfolding check_files
  sweep_current [] f s h current = refl
  sweep_current ((g, time) ∷ files) f s h current = elim (Checked-cases (check_file P m g s)) [
    | inl e ↦ rw (e, check_files) (sweep_current files f s (rw (e, check_files) at h) current)
    | inr (inl (t, e)) ↦
        let (text, is) = check_file_current P content L m apart g f s t e current in
        rw (e, check_files) (sweep_current files f t (rw (e, check_files) at h) is ∙ text)
    | inr (inr (t, e)) ↦ absurd (true≢false (rw (e, check_files) at h))
  ]
