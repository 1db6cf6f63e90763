-- ===== src/Hash.antt =====
-- src/util/hash/: the ring of servers and the two hash functions. `int256_t` holds every value
-- here, so that numbers do not wrap.
pub mod Ring
pub mod Digest
pub mod Signed
use cbb.Prelude.{
  ℕ, zero, suc, ◌+◌, ◌-◌, ◌*◌, ◌/◌, ◌^◌, Bool, true, false, List, [], ◌∷◌, ◌++◌, Option, none, some,
  leb, ltb, ◌==◌, if◌then◌else◌, length, ◌≤◌,
}

-- ConsistentHash::NodeCircleInfo
pub record NodeCircleInfo (T : Type 0) : Type 0 where
  pub value : ℕ
  pub info : T

-- max_value of CalcNodePointValue: (1 << key_bits) - 1
abbrev pub max_key : ℕ → ℕ
max_key key_bits = 2 ^ key_bits - 1

-- The loop `for (index = 0; index < node_count - 1; index++)`, with the rounds that are left, the
-- running `value` and the last point.
unfoldable pub push_points : ℕ → ℕ → ℕ → ℕ → List ℕ
push_points zero value add_value last = last ∷ []
push_points (suc rounds) value add_value last =
    (value + add_value) ∷ push_points rounds (value + add_value) add_value last

-- ConsistentHash::CalcNodePointValue. A division by zero throws: `none`.
unfoldable pub calc_node_point_value : ℕ → ℕ → Option (List ℕ)
unfolding push_points
calc_node_point_value key_bits zero = none
calc_node_point_value key_bits (suc rounds) =
    some (push_points rounds 0 (max_key key_bits / suc rounds) (max_key key_bits))

-- The loop that fills `node_circle_`.
unfoldable pub node_circle : {T : Type 0} → List ℕ → List T → List (NodeCircleInfo T)
node_circle (p ∷ points) (i ∷ infos) = record { value = p; info = i } ∷ node_circle points infos
node_circle _ _ = []

-- ConsistentHash::Create: the new circle, or an exception.
unfoldable pub create : {T : Type 0} → ℕ → List T → Option (List (NodeCircleInfo T))
unfolding calc_node_point_value node_circle
create key_bits infos = elim (calc_node_point_value key_bits (length infos)) [
  | none ↦ none
  | some points ↦ some (node_circle points infos)
]

-- ConsistentHash::GetNode: the first node whose value is not below the key; `none` is `empty_`.
unfoldable pub get_node : {T : Type 0} → List (NodeCircleInfo T) → ℕ → Option T
get_node [] key = none
get_node (n ∷ circle) key =
    let rest = get_node circle key in if leb key n.value then some n.info else rest

-- HashCalcMD5::GetKeyBits, HashCalcSHA1::GetKeyBits
abbrev pub md5_key_bits : ℕ
md5_key_bits = 128

abbrev pub sha1_key_bits : ℕ
sha1_key_bits = 160

-- The loop `rethash <<= 8; rethash += digest[index]` of HashCalcMD5::CalcHash.
unfoldable pub fold_digest : ℕ → List ℕ → ℕ
fold_digest rethash [] = rethash
fold_digest rethash (d ∷ digest) = fold_digest (rethash * 256 + d) digest

-- HashCalcMD5::CalcHash, from what the MD5 calls of OpenSSL give: the digest, or a failure of one.
unfoldable pub calc_hash_md5 : Option (List ℕ) → ℕ
unfolding fold_digest
calc_hash_md5 none = 0
calc_hash_md5 (some digest) = fold_digest 0 digest
