-- ===== src/Text/Find.antt =====
-- Equality, prefixes and the first occurrence of a text.
use cbb.Prelude.{
  ℕ, suc, ◌+◌, ◌≡◌, refl, ◌≢◌, ◌↔◌, true, false, [], ◌∷◌, ◌++◌, Option, none, some, arith, length,
  All,
}
use mathlib.Core.Option
use cbb.Text.{Bytes, eqb, is_prefix, find}

pub eqb_refl : (s : Bytes) → eqb s s ≡ true
unfolding eqb
eqb_refl [] = refl
eqb_refl (x ∷ s) = ground (arith, eqb_refl s)

pub eqb_sound : (s t : Bytes) → eqb s t ≡ true → s ≡ t
unfolding eqb
eqb_sound [] [] h = refl
eqb_sound [] (y ∷ t) h = ground arith
eqb_sound (x ∷ s) [] h = ground arith
eqb_sound (x ∷ s) (y ∷ t) h = ground (arith, eqb_sound s t)

pub eqb_iff : (s t : Bytes) → (eqb s t ≡ true) ↔ (s ≡ t)
eqb_iff s t = (eqb_sound s t, λ e. rw e (eqb_refl t))

pub is_prefix-append : (s t : Bytes) → is_prefix s (s ++ t) ≡ true
unfolding is_prefix
is_prefix-append [] t = refl
is_prefix-append (x ∷ s) t = ground (arith, is_prefix-append s t)

-- No byte of a text is `c`.
abbrev pub Lacks : ℕ → Bytes → Type 0
Lacks c s = All (λ x. x ≢ c) s

-- A text whose first byte occurs nowhere in `t` does not occur in `t`.
pub find_lacking : (c : ℕ) (s t : Bytes) → Lacks c t → find (c ∷ s) t ≡ none
unfolding find
find_lacking c s [] h = refl
find_lacking c s (y ∷ t) h = ground (arith, find_lacking c s t h.1)

-- A pattern that starts with `c` is no prefix of `p`, then `c`, if it has `c` only at its start
-- and is no prefix of `p` alone.
pub is_prefix_straddle :
    (c : ℕ) (s p t : Bytes) → Lacks c s → is_prefix s p ≡ false → is_prefix s (p ++ c ∷ t) ≡ false
unfolding is_prefix
is_prefix_straddle c [] p t lacks h = h
is_prefix_straddle c (x ∷ s) [] t lacks h = ground arith
is_prefix_straddle c (x ∷ s) (y ∷ p) t lacks h = ground (arith, is_prefix_straddle c s p t lacks.1)

zero-add_map : (o : Option ℕ) → Option.map (λ i. 0 + i) o ≡ o
zero-add_map none = refl
zero-add_map (some i) = ground arith

suc-add_map :
    (n : ℕ) (o : Option ℕ)
    → Option.map suc (Option.map (λ i. n + i) o) ≡ Option.map (λ i. suc n + i) o
suc-add_map n none = refl
suc-add_map n (some i) = ground arith

-- The first occurrence of a pattern in `p`, then `t`, for a pattern that `p` lacks: where it is
-- in `t`, moved by the length of `p`.
pub find-append :
    (c : ℕ) (s p t : Bytes)
    → Lacks c s
    → find (c ∷ s) p ≡ none
    → find (c ∷ s) (p ++ c ∷ t) ≡ Option.map (λ i. length p + i) (find (c ∷ s) (c ∷ t))
unfolding find
find-append c s [] t lacks h = ground (arith, zero-add_map (find (c ∷ s) (c ∷ t)))
find-append c s (y ∷ p) t lacks h = ground (
  arith,
  find-append c s p t lacks,
  is_prefix_straddle c s p t lacks,
  suc-add_map (length p) (find (c ∷ s) (c ∷ t)),
)
