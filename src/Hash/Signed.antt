-- ===== src/Hash/Signed.antt =====
-- HashCalcSHA1::CalcHash of src/util/hash/hash_calc_sha1.cc, over the five words of the digest that
-- boost gives, on a machine whose words have their low byte first and whose `char` is signed.
-- Shifting a negative number of boost to the left multiplies it.
use cbb.Prelude.{
  ℕ, ◌+◌, ◌-◌, ◌*◌, ◌/◌, ◌%◌, ◌^◌, ◌<◌, ◌≡◌, refl, ℤ, pos, negsuc, List, [], ◌∷◌, ltb, leb,
  if◌then◌else◌, All, arith,
}
use cbb.Hash.{fold_digest}

-- a - b
abbrev minus : ℕ → ℕ → ℤ
minus a b = if leb b a then pos (a - b) else negsuc (b - a - 1)

infixl 6 ◌+ℤ◌
abbrev pub ◌+ℤ◌ : ℤ → ℤ → ℤ
◌+ℤ◌ (pos a) (pos b) = pos (a + b)
◌+ℤ◌ (pos a) (negsuc b) = minus a (b + 1)
◌+ℤ◌ (negsuc a) (pos b) = minus b (a + 1)
◌+ℤ◌ (negsuc a) (negsuc b) = negsuc (a + b + 1)

-- rethash <<= 8
abbrev pub shift_byte : ℤ → ℤ
shift_byte (pos n) = pos (n * 256)
shift_byte (negsuc n) = negsuc (n * 256 + 255)

-- (int)hash[index]
abbrev pub signed_char : ℕ → ℤ
signed_char b = if ltb b 128 then pos b else negsuc (255 - b)

-- The second loop.
unfoldable pub fold_signed : ℤ → List ℕ → ℤ
fold_signed rethash [] = rethash
fold_signed rethash (b ∷ hash) = fold_signed (shift_byte rethash +ℤ signed_char b) hash

-- The first loop: the bytes of each word, the high one first.
unfoldable pub word_bytes : List ℕ → List ℕ
word_bytes [] = []
word_bytes (w ∷ digest) =
    w / 2 ^ 24 % 256 ∷ w / 2 ^ 16 % 256 ∷ w / 2 ^ 8 % 256 ∷ w % 256 ∷ word_bytes digest

unfoldable pub calc_hash_sha1 : List ℕ → ℤ
unfolding fold_signed word_bytes
calc_hash_sha1 digest = fold_signed (pos 0) (word_bytes digest)

-- Bytes below 128 give the same number as HashCalcMD5 makes of them.
fold_signed-fold_digest :
    (rethash : ℕ) (hash : List ℕ)
    → All (λ b. b < 128) hash
    → fold_signed (pos rethash) hash ≡ pos (fold_digest rethash hash)
unfolding fold_signed fold_digest
fold_signed-fold_digest rethash [] h = refl
fold_signed-fold_digest rethash (b ∷ hash) h =
    ground (arith, h.0, fold_signed-fold_digest (rethash * 256 + b) hash h.1)

-- A digest whose bytes are below 128 has the hash that its bytes spell.
pub calc_hash_sha1-fold_digest :
    (digest : List ℕ)
    → All (λ b. b < 128) (word_bytes digest)
    → calc_hash_sha1 digest ≡ pos (fold_digest 0 (word_bytes digest))
unfolding calc_hash_sha1
calc_hash_sha1-fold_digest digest h = fold_signed-fold_digest 0 (word_bytes digest) h
