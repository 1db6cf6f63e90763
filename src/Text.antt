-- ===== src/Text.antt =====
-- `std::string` as a list of bytes: `==`, `find`, `substr` and `replace`, as the sources use them.
pub mod Find
use cbb.Prelude.{
  ℕ, zero, suc, ◌+◌, Bool, true, false, ◌&&◌, ◌||◌, List, [], ◌∷◌, ◌++◌, Option, none, some, ◌==◌,
  ltb, if◌then◌else◌, take, drop,
}
use mathlib.Core.Option

abbrev pub Bytes : Type 0
Bytes = List ℕ

-- operator==
unfoldable pub eqb : Bytes → Bytes → Bool
eqb [] [] = true
eqb [] (y ∷ ys) = false
eqb (x ∷ xs) [] = false
eqb (x ∷ xs) (y ∷ ys) = x == y && eqb xs ys

-- operator<, the order of the keys of a `std::map`.
unfoldable pub lt_bytes : Bytes → Bytes → Bool
lt_bytes xs [] = false
lt_bytes [] (y ∷ ys) = true
lt_bytes (x ∷ xs) (y ∷ ys) = ltb x y || (x == y && lt_bytes xs ys)

-- Whether the second text begins with the first.
unfoldable pub is_prefix : Bytes → Bytes → Bool
is_prefix [] t = true
is_prefix (x ∷ xs) [] = false
is_prefix (x ∷ xs) (y ∷ ys) = x == y && is_prefix xs ys

-- `t.find(s)`: the first position, `none` for `npos`.
unfoldable pub find : Bytes → Bytes → Option ℕ
unfolding is_prefix
find s [] = if is_prefix s [] then some 0 else none
find s (y ∷ ys) =
    let rest = find s ys in if is_prefix s (y ∷ ys) then some 0 else Option.map suc rest

-- `t.find(s) != npos`
unfoldable pub contains : Bytes → Bytes → Bool
unfolding find
contains s t = elim (find s t) [ none ↦ false | some i ↦ true ]

-- `t.replace(i, n, "")`
unfoldable pub remove_at : ℕ → ℕ → Bytes → Bytes
remove_at i n t = take i t ++ drop (i + n) t
