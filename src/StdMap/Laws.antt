-- ===== src/StdMap/Laws.antt =====
-- The laws of maps and sets in `if` form.
use cbb.Prelude.{
  ℕ, ◌≡◌, refl, ◌||◌, not, ◌&&◌, List, [], ◌∷◌, none, some, arith, ◌==◌, if◌then◌else◌,
}
use cbb.Text.{Bytes, eqb}
use cbb.Text.Find.{eqb_iff}
use cbb.StdMap.{Map, lookup, assign, erase, set_insert, set_erase, set_has}

module _ {ℓ} {V : Type ℓ} where
  pub lookup-assign :
      (k j : Bytes) (v : V) (m : Map V)
      → lookup j (assign k v m) ≡ (if eqb j k then some v else lookup j m)
  unfolding lookup assign
  lookup-assign k j v [] = refl
  lookup-assign k j v ((i, w) ∷ m) =
      ground (arith, eqb_iff k i, eqb_iff j i, eqb_iff j k, lookup-assign k j v m)

  pub lookup-erase :
      (k j : Bytes) (m : Map V) → lookup j (erase k m) ≡ (if eqb j k then none else lookup j m)
  unfolding lookup erase
  lookup-erase k j [] = ground arith
  lookup-erase k j ((i, w) ∷ m) =
      ground (arith, eqb_iff k i, eqb_iff j i, eqb_iff j k, lookup-erase k j m)

pub set_has-set_insert :
    (n x : ℕ) (xs : List ℕ) → set_has x (set_insert n xs) ≡ (x == n || set_has x xs)
unfolding set_has set_insert
set_has-set_insert n x [] = refl
set_has-set_insert n x (y ∷ ys) = ground (arith, set_has-set_insert n x ys)

pub set_has-set_erase :
    (n x : ℕ) (xs : List ℕ) → set_has x (set_erase n xs) ≡ (not (x == n) && set_has x xs)
unfolding set_has set_erase
set_has-set_erase n x [] = ground arith
set_has-set_erase n x (y ∷ ys) = ground (arith, set_has-set_erase n x ys)
