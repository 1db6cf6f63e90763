-- ===== src/Hash/Ring.antt =====
-- The ring of ConsistentHash in src/util/hash/consistent_hash.h: which node a key falls on.
use Prim.Native.Nat.{min}
use cbb.Prelude.{
  ℕ, zero, suc, ◌+◌, ◌-◌, ◌/◌, ◌≤◌, ◌<◌, ◌≡◌, inl, inr, List, [], ◌∷◌, some, arith, leb, length,
  get_elem?, Bool-cases,
}
use cbb.Hash.{NodeCircleInfo, max_key, push_points, node_circle, create, get_node}

div_small : (x d : ℕ) → x < d → x / d ≡ 0
div_small x d h = grind arith

div_step : (x d : ℕ) → 0 < d → d ≤ x → x / d ≡ suc ((x - d) / d)
div_step x d p h = grind arith

-- The server that a key falls on, counted from 0: `step` keys for each server, from the key 1 on,
-- and the rest for the last.
abbrev pub owner : ℕ → ℕ → ℕ → ℕ
owner step last key = min ((key - 1) / step) last

sub_sub : (a b c : ℕ) → a - b - c ≡ a - (b + c)
sub_sub a b c = omega arith

sub_zero : (a : ℕ) → a - 0 ≡ a
sub_zero a = omega arith

div_pos : (a b : ℕ) → 0 < b → b ≤ a → 0 < a / b
div_pos a b p h = grind arith

owner_zero : (step k : ℕ) → owner step 0 k ≡ 0
owner_zero step k = omega arith

owner_low : (step rounds k : ℕ) → 0 < step → k ≤ step → owner step rounds k ≡ 0
owner_low step rounds k p h =
    let e : (k - 1) / step ≡ 0 = div_small (k - 1) step (omega arith) in omega (arith, e)

owner_high :
    (step rounds k : ℕ)
    → 0 < step
    → step < k
    → owner step (suc rounds) k ≡ suc (owner step rounds (k - step))
owner_high step rounds k p h =
    let shift : k - step - 1 ≡ k - 1 - step = omega arith in
    rw (div_step (k - 1) step p (omega arith), ← shift) (omega arith)

get_node-push_points :
    {T : Type 0} (rounds value step last key : ℕ) (infos : List T)
    → 0 < step
    → key ≤ last
    → length infos ≡ suc rounds
    → get_node (node_circle (push_points rounds value step last) infos) key
      ≡ get_elem? infos (owner step rounds (key - value))
unfolding get_node node_circle push_points
get_node-push_points rounds value step last key [] p h e = absurd (omega arith)
get_node-push_points zero value step last key (i ∷ infos) p h e =
    rw (owner_zero step (key - value)) (ground arith)
get_node-push_points (suc rounds) value step last key (i ∷ infos) p h e =
    elim (Bool-cases (leb key (value + step))) [
      | inl low ↦ rw (low, owner_low step (suc rounds) (key - value) p (ground arith))
      | inr high ↦
          rw (high, owner_high step rounds (key - value) p (ground arith), sub_sub key value step)
            (get_node-push_points rounds (value + step) step last key infos p h (omega arith))
    ]

-- With at least one server and no more servers than keys, the circle is built, and every key of
-- `key_bits` bits falls on the server `min ((key - 1) / step) (n - 1)` of the configured list, where
-- `step` is the number of keys divided by the number of servers.
pub get_node-create :
    {T : Type 0} (key_bits last key : ℕ) (infos : List T)
    → length infos ≡ suc last
    → suc last ≤ max_key key_bits
    → key ≤ max_key key_bits
    → (circle : List (NodeCircleInfo T)) × (create key_bits infos ≡ some circle)
      × (get_node circle key ≡ get_elem? infos (owner (max_key key_bits / suc last) last key))
unfolding create
get_node-create key_bits last key infos e fits h =
    let step = max_key key_bits / suc last in
    (
      node_circle (push_points last 0 step (max_key key_bits)) infos,
      rw (e, create),
      rw sub_zero at (
          get_node-push_points last 0 step (max_key key_bits) key infos
            (div_pos (max_key key_bits) (suc last) (omega arith) fits) h e),
    )
