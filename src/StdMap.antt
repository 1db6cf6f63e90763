-- ===== src/StdMap.antt =====
-- `std::map<std::string, V>` as an association list in the order of its keys, and `std::set<int>`
-- as a list of numbers in their order.
pub mod Laws
use cbb.Prelude.{
  ℕ, Bool, true, false, ◌||◌, List, [], ◌∷◌, Option, none, some, ◌==◌, ltb, if◌then◌else◌,
}
use cbb.Text.{Bytes, eqb, lt_bytes}

abbrev pub Map {ℓ} : Type ℓ → Type ℓ
Map V = List (Bytes × V)

module _ {ℓ} {V : Type ℓ} where
  -- map.find(key): `none` for end().
  unfoldable pub lookup : Bytes → Map V → Option V
  lookup k [] = none
  lookup k ((j, v) ∷ m) = let rest = lookup k m in if eqb k j then some v else rest

  -- map[key] = value
  unfoldable pub assign : Bytes → V → Map V → Map V
  assign k v [] = (k, v) ∷ []
  assign k v ((j, w) ∷ m) =
      let rest = assign k v m in
      if eqb k j then (k, v) ∷ m else if lt_bytes k j then (k, v) ∷ (j, w) ∷ m else (j, w) ∷ rest

  -- map.erase(key)
  unfoldable pub erase : Bytes → Map V → Map V
  erase k [] = []
  erase k ((j, v) ∷ m) = let rest = erase k m in if eqb k j then rest else (j, v) ∷ rest

-- set.insert(n)
unfoldable pub set_insert : ℕ → List ℕ → List ℕ
set_insert n [] = n ∷ []
set_insert n (x ∷ xs) =
    let rest = set_insert n xs in
    if n == x then x ∷ xs else if ltb n x then n ∷ x ∷ xs else x ∷ rest

-- set.erase(n)
unfoldable pub set_erase : ℕ → List ℕ → List ℕ
set_erase n [] = []
set_erase n (x ∷ xs) = let rest = set_erase n xs in if n == x then rest else x ∷ rest

-- set.count(n) != 0
unfoldable pub set_has : ℕ → List ℕ → Bool
set_has n [] = false
set_has n (x ∷ xs) = n == x || set_has n xs

-- set.empty()
abbrev pub is_empty {ℓ} : {A : Type ℓ} → List A → Bool
is_empty [] = true
is_empty (x ∷ xs) = false
