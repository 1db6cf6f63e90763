-- ===== src/Dispatch/Arguments.antt =====
-- The parameters that a branch of BurstBuffer::dispatch in src/cbb/burst_buffer.cc takes: a relation
-- that holds of a refusal, and of the rest of the branch, holds of the branch.
use cbb.Prelude.{ltb, ℕ, ℤ, pos, negsuc, List, [], ◌∷◌, Bool-cases, inl, inr}
use cbb.Text.{Bytes}
use cbb.Common.{TimeSpec}
use cbb.Posix.{Posix}
use cbb.Server.{Server, Handler, Reply, error_reply}
use cbb.Client.{Response, Param, text, num, raw, time}
use cbb.Dispatch.Handlers.{in_range, Branch, text_arg, raw_arg, time_arg, natural_arg, signed_arg}

module _ (P : Posix) where
  -- A handler relates the server before it to the server after it.
  abbrev pub Moves : {A : Type 0} → (Server P → Server P → Type 0) → Handler P A → Type 0
  Moves R h = (v : Server P) → R v (h v).1

  -- A branch relates the server before it to the reply and the server after it.
  pub record BranchMoves (R : Server P → Reply Response × Server P → Type 0) (f : Branch P)
      : Type 0 where
    pub at : (params : List Param) (v : Server P) → R v (f params v)

  module _ (R : Server P → Reply Response × Server P → Type 0)
      (stays : (v : Server P) → R v (error_reply, v)) where
    text_arg-at :
        (k : Bytes → Branch P)
        → ((a : Bytes) → BranchMoves R (k a))
        → (params : List Param) (v : Server P) → R v (text_arg k params v)
    text_arg-at k more [] v = stays v
    text_arg-at k more (text t ∷ params) v = (more t).at params v
    text_arg-at k more (num n ∷ params) v = stays v
    text_arg-at k more (raw r ∷ params) v = stays v
    text_arg-at k more (time t ∷ params) v = stays v

    pub text_arg-Moves :
        (k : Bytes → Branch P) → ((a : Bytes) → BranchMoves R (k a)) → BranchMoves R (text_arg k)
    text_arg-Moves k more = record { at = text_arg-at k more }

    raw_arg-at :
        (k : Bytes → Branch P)
        → ((a : Bytes) → BranchMoves R (k a))
        → (params : List Param) (v : Server P) → R v (raw_arg k params v)
    raw_arg-at k more [] v = stays v
    raw_arg-at k more (raw r ∷ params) v = (more r).at params v
    raw_arg-at k more (num n ∷ params) v = stays v
    raw_arg-at k more (text t ∷ params) v = stays v
    raw_arg-at k more (time t ∷ params) v = stays v

    pub raw_arg-Moves :
        (k : Bytes → Branch P) → ((a : Bytes) → BranchMoves R (k a)) → BranchMoves R (raw_arg k)
    raw_arg-Moves k more = record { at = raw_arg-at k more }

    time_arg-at :
        (k : TimeSpec → Branch P)
        → ((a : TimeSpec) → BranchMoves R (k a))
        → (params : List Param) (v : Server P) → R v (time_arg k params v)
    time_arg-at k more [] v = stays v
    time_arg-at k more (time t ∷ params) v = (more t).at params v
    time_arg-at k more (num n ∷ params) v = stays v
    time_arg-at k more (raw r ∷ params) v = stays v
    time_arg-at k more (text t ∷ params) v = stays v

    pub time_arg-Moves :
        (k : TimeSpec → Branch P)
        → ((a : TimeSpec) → BranchMoves R (k a))
        → BranchMoves R (time_arg k)
    time_arg-Moves k more = record { at = time_arg-at k more }

    natural_arg-at :
        (bound : ℕ) (k : ℕ → Branch P)
        → ((a : ℕ) → BranchMoves R (k a))
        → (params : List Param) (v : Server P) → R v (natural_arg bound k params v)
    natural_arg-at bound k more [] v = stays v
    natural_arg-at bound k more (num (pos n) ∷ params) v = elim (Bool-cases (ltb n bound)) [
      | inl e ↦ rw e ((more n).at params v)
      | inr e ↦ rw e (stays v)
    ]
    natural_arg-at bound k more (num (negsuc n) ∷ params) v = stays v
    natural_arg-at bound k more (text t ∷ params) v = stays v
    natural_arg-at bound k more (raw r ∷ params) v = stays v
    natural_arg-at bound k more (time t ∷ params) v = stays v

    pub natural_arg-Moves :
        (bound : ℕ) (k : ℕ → Branch P)
        → ((a : ℕ) → BranchMoves R (k a))
        → BranchMoves R (natural_arg bound k)
    natural_arg-Moves bound k more = record { at = natural_arg-at bound k more }

    signed_arg-at :
        (bound : ℕ) (k : ℤ → Branch P)
        → ((a : ℤ) → BranchMoves R (k a))
        → (params : List Param) (v : Server P) → R v (signed_arg bound k params v)
    signed_arg-at bound k more [] v = stays v
    signed_arg-at bound k more (num n ∷ params) v = elim (Bool-cases (in_range bound n)) [
      | inl e ↦ rw e ((more n).at params v)
      | inr e ↦ rw e (stays v)
    ]
    signed_arg-at bound k more (text t ∷ params) v = stays v
    signed_arg-at bound k more (raw r ∷ params) v = stays v
    signed_arg-at bound k more (time t ∷ params) v = stays v

    pub signed_arg-Moves :
        (bound : ℕ) (k : ℤ → Branch P)
        → ((a : ℤ) → BranchMoves R (k a))
        → BranchMoves R (signed_arg bound k)
    signed_arg-Moves bound k more = record { at = signed_arg-at bound k more }
