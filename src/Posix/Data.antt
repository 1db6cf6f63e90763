-- ===== src/Posix/Data.antt =====
-- What is relied on of open descriptors: the file that each leads to, and reading and writing its data.
use cbb.Prelude.{
  take-length, ℕ, zero, suc, ◌≡◌, refl, true, false, [], ◌∷◌, Option, some, if◌then◌else◌, take,
  drop, length, pos,
}
use cbb.Text.{Bytes, eqb}
use cbb.Common.{ok}
use cbb.Posix.{Posix}

-- The data of a file after bytes are written from an offset on: a gap is filled with zeros, and
-- writing no bytes changes nothing.
unfoldable pub splice : Bytes → ℕ → Bytes → Bytes
splice old offset [] = old
splice [] zero (b ∷ bs) = b ∷ bs
splice (x ∷ old) zero (b ∷ bs) = b ∷ splice old zero bs
splice [] (suc offset) (b ∷ bs) = 0 ∷ splice [] offset (b ∷ bs)
splice (x ∷ old) (suc offset) (b ∷ bs) = x ∷ splice old offset (b ∷ bs)

-- The bytes of a range after they were written there.
pub take-drop-splice :
    (old : Bytes) (offset : ℕ) (bs : Bytes)
    → take (length bs) (drop offset (splice old offset bs)) ≡ bs
unfolding splice
take-drop-splice old offset [] = refl
take-drop-splice [] zero (b ∷ bs) = rw (take-length bs)
take-drop-splice (x ∷ old) zero (b ∷ bs) = rw (take-drop-splice old zero bs)
take-drop-splice [] (suc offset) (b ∷ bs) = take-drop-splice [] offset (b ∷ bs)
take-drop-splice (x ∷ old) (suc offset) (b ∷ bs) = take-drop-splice old offset (b ∷ bs)

pub splice_new : (bs : Bytes) → splice [] 0 bs ≡ bs
unfolding splice
splice_new [] = refl
splice_new (b ∷ bs) = refl

-- `content` is the data of the file at a path, and `names` the path of the file that a descriptor
-- leads to.
pub record KeepsData (P : Posix) (content : P.State → Bytes → Option Bytes)
    (names : P.State → ℕ → Option Bytes) : Type 0 where
  -- open with O_CREAT makes an empty file under a new name.
  pub names-open_file_mode :
      (s t : P.State) (p : Bytes) (flags mode fd : ℕ)
      → P.open_file_mode p flags mode s ≡ (ok fd, t)
      → names t fd ≡ some p
  pub content-open_file_mode :
      (s t : P.State) (p : Bytes) (flags mode fd : ℕ)
      → P.exists s p ≡ false
      → P.open_file_mode p flags mode s ≡ (ok fd, t)
      → content t p ≡ some []
  pub exists-open_file_mode :
      (s t : P.State) (p q : Bytes) (flags mode fd : ℕ)
      → P.exists s p ≡ false
      → P.open_file_mode p flags mode s ≡ (ok fd, t)
      → P.exists t q ≡ (if eqb q p then true else P.exists s q)
  -- open with O_RDONLY, which is 0, changes no file.
  pub names-open_file :
      (s t : P.State) (p : Bytes) (fd : ℕ) → P.open_file p 0 s ≡ (ok fd, t) → names t fd ≡ some p
  pub content-open_file :
      (s t : P.State) (p q : Bytes) (fd : ℕ)
      → P.open_file p 0 s ≡ (ok fd, t)
      → content t q ≡ content s q
  -- pwrite writes the first of the bytes, as many as it answers, and makes and removes no file.
  pub content-pwrite :
      (s t : P.State) (p old bs : Bytes) (fd offset n : ℕ)
      → names s fd ≡ some p
      → content s p ≡ some old
      → P.pwrite fd bs (pos offset) s ≡ (ok n, t)
      → content t p ≡ some (splice old offset (take n bs))
  pub names-pwrite :
      (s t : P.State) (bs : Bytes) (fd fd' offset n : ℕ)
      → P.pwrite fd bs (pos offset) s ≡ (ok n, t)
      → names t fd' ≡ names s fd'
  pub exists-pwrite :
      (s t : P.State) (bs q : Bytes) (fd offset n : ℕ)
      → P.pwrite fd bs (pos offset) s ≡ (ok n, t)
      → P.exists t q ≡ P.exists s q
  -- pread gives the data from the offset on, up to the size.
  pub content-pread :
      (s : P.State) (p text bs : Bytes) (fd size offset : ℕ)
      → names s fd ≡ some p
      → content s p ≡ some text
      → P.pread fd size (pos offset) s ≡ ok bs
      → bs ≡ take size (drop offset text)
  -- close changes no file.
  pub content-close : (s : P.State) (fd : ℕ) (q : Bytes) → content (P.close fd s).1 q ≡ content s q
  pub exists-close : (s : P.State) (fd : ℕ) (q : Bytes) → P.exists (P.close fd s).1 q ≡ P.exists s q
