-- ===== src/Hash/Digest.antt =====
-- The bounds of HashCalcMD5::CalcHash in src/util/hash/hash_calc_md5.cc.
use cbb.Prelude.{
  ℕ, zero, suc, ◌+◌, ◌*◌, ◌^◌, ◌<◌, ◌≤◌, ◌≡◌, refl, List, [], ◌∷◌, Option, none, some, arith,
  length, All,
}
use cbb.Hash.{fold_digest, calc_hash_md5, max_key, md5_key_bits}

abbrev pub IsByte : ℕ → Type 0
IsByte d = d < 256

-- b * 256 ^ n
scale : ℕ → ℕ → ℕ
scale b zero = b
scale b (suc n) = scale (b * 256) n

fold_digest-lt :
    (r b : ℕ) (ds : List ℕ) → All IsByte ds → r < b → fold_digest r ds < scale b (length ds)
unfolding fold_digest scale
fold_digest-lt r b [] h lt = lt
fold_digest-lt r b (d ∷ ds) h lt =
    fold_digest-lt (r * 256 + d) (b * 256) ds h.1 (omega (arith, h.0))

-- What OpenSSL documents of a digest: sixteen bytes.
abbrev pub IsDigest : Option (List ℕ) → Type 0
IsDigest none = Unit {0}
IsDigest (some ds) = (length ds ≡ 16) × All IsByte ds

scale_sixteen : scale 1 16 ≡ 2 ^ 128
unfolding scale
scale_sixteen = refl

-- The hash of a digest of sixteen bytes fits the 128 bits that HashCalcMD5::GetKeyBits states, and
-- so does the hash that is returned when an MD5 call fails.
pub calc_hash_md5-le-max_key :
    (digest : Option (List ℕ)) → IsDigest digest → calc_hash_md5 digest ≤ max_key md5_key_bits
unfolding calc_hash_md5
calc_hash_md5-le-max_key none h = omega arith
calc_hash_md5-le-max_key (some ds) h =
    let bound : fold_digest 0 ds < scale 1 (length ds) = fold_digest-lt 0 1 ds h.1 (omega arith) in
    omega (arith, rw (h.0, scale_sixteen) at bound)
