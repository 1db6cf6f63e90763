-- ===== src/Dispatch/Refusal.antt =====
-- Requests that BurstBuffer::dispatch in src/cbb/burst_buffer.cc refuses.
use cbb.Prelude.{refl, arith, false, ◌≡◌, ℕ, ℤ, pos, negsuc, List, [], ◌∷◌}
use cbb.Text.{Bytes}
use cbb.Common.{TimeSpec}
use cbb.Posix.{Posix}
use cbb.Server.{Server, error_reply, Handler}
use cbb.Client.{Method, Param, text, num, raw, time, Request, Response}
use cbb.Dispatch.{Kind, string, integer, raw_data, time_spec, converts, accepts, expected}
use cbb.Dispatch.Handlers.{
  Junk, Branch, finish, text_arg, raw_arg, time_arg, natural_arg, signed_arg, dispatch_to, dispatch,
}

module _ {P : Posix} where
  -- A branch refuses what does not convert to its kinds.
  abbrev Refuses : List Kind → Branch P → Type 0
  Refuses kinds f =
      (params : List Param) (v : Server P)
      → converts kinds params ≡ false
      → f params v ≡ (error_reply, v)

  last-Refuses : (h : Handler P Response) → Refuses [] (finish h)
  unfolding converts
  last-Refuses h params v e = ground arith

  text_arg-Refuses :
      (kinds : List Kind) (k : Bytes → Branch P)
      → ((a : Bytes) → Refuses kinds (k a))
      → Refuses (string ∷ kinds) (text_arg k)
  unfolding converts
  text_arg-Refuses kinds k more [] v e = refl
  text_arg-Refuses kinds k more (text t ∷ params) v e = more t params v (ground arith)
  text_arg-Refuses kinds k more (num n ∷ params) v e = refl
  text_arg-Refuses kinds k more (raw r ∷ params) v e = refl
  text_arg-Refuses kinds k more (time t ∷ params) v e = refl

  raw_arg-Refuses :
      (kinds : List Kind) (k : Bytes → Branch P)
      → ((a : Bytes) → Refuses kinds (k a))
      → Refuses (raw_data ∷ kinds) (raw_arg k)
  unfolding converts
  raw_arg-Refuses kinds k more [] v e = refl
  raw_arg-Refuses kinds k more (raw t ∷ params) v e = more t params v (ground arith)
  raw_arg-Refuses kinds k more (num n ∷ params) v e = refl
  raw_arg-Refuses kinds k more (text r ∷ params) v e = refl
  raw_arg-Refuses kinds k more (time t ∷ params) v e = refl

  time_arg-Refuses :
      (kinds : List Kind) (k : TimeSpec → Branch P)
      → ((a : TimeSpec) → Refuses kinds (k a))
      → Refuses (time_spec ∷ kinds) (time_arg k)
  unfolding converts
  time_arg-Refuses kinds k more [] v e = refl
  time_arg-Refuses kinds k more (time t ∷ params) v e = more t params v (ground arith)
  time_arg-Refuses kinds k more (num n ∷ params) v e = refl
  time_arg-Refuses kinds k more (raw r ∷ params) v e = refl
  time_arg-Refuses kinds k more (text t ∷ params) v e = refl

  natural_arg-Refuses :
      (bound : ℕ) (kinds : List Kind) (k : ℕ → Branch P)
      → ((a : ℕ) → Refuses kinds (k a))
      → Refuses (integer ∷ kinds) (natural_arg bound k)
  unfolding converts
  natural_arg-Refuses bound kinds k more [] v e = refl
  natural_arg-Refuses bound kinds k more (num (pos n) ∷ params) v e =
      ground (arith, more n params v (ground arith))
  natural_arg-Refuses bound kinds k more (num (negsuc n) ∷ params) v e = refl
  natural_arg-Refuses bound kinds k more (text t ∷ params) v e = refl
  natural_arg-Refuses bound kinds k more (raw t ∷ params) v e = refl
  natural_arg-Refuses bound kinds k more (time t ∷ params) v e = refl

  signed_arg-Refuses :
      (bound : ℕ) (kinds : List Kind) (k : ℤ → Branch P)
      → ((a : ℤ) → Refuses kinds (k a))
      → Refuses (integer ∷ kinds) (signed_arg bound k)
  unfolding converts
  signed_arg-Refuses bound kinds k more [] v e = refl
  signed_arg-Refuses bound kinds k more (num n ∷ params) v e =
      ground (arith, more n params v (ground arith))
  signed_arg-Refuses bound kinds k more (text t ∷ params) v e = refl
  signed_arg-Refuses bound kinds k more (raw t ∷ params) v e = refl
  signed_arg-Refuses bound kinds k more (time t ∷ params) v e = refl

module _ (P : Posix) (fuel : ℕ) (junk : Junk) where
  dispatch_to-Refuses : (m : Method) → Refuses (expected m) (dispatch_to P fuel junk m)
  unfolding dispatch_to expected
  dispatch_to-Refuses Method.get_attr = text_arg-Refuses _ _ (λ a. last-Refuses _)
  dispatch_to-Refuses Method.read_link =
      text_arg-Refuses _ _ (λ a. natural_arg-Refuses _ _ _ (λ b. last-Refuses _))
  dispatch_to-Refuses Method.mk_dir =
      text_arg-Refuses _ _ (λ a. natural_arg-Refuses _ _ _ (λ b. last-Refuses _))
  dispatch_to-Refuses Method.unlink = text_arg-Refuses _ _ (λ a. last-Refuses _)
  dispatch_to-Refuses Method.rm_dir = text_arg-Refuses _ _ (λ a. last-Refuses _)
  dispatch_to-Refuses Method.symlink =
      text_arg-Refuses _ _ (λ a. text_arg-Refuses _ _ (λ b. last-Refuses _))
  dispatch_to-Refuses Method.rename =
      text_arg-Refuses _ _ (λ a. text_arg-Refuses _ _ (λ b. last-Refuses _))
  dispatch_to-Refuses Method.link =
      text_arg-Refuses _ _ (λ a. text_arg-Refuses _ _ (λ b. last-Refuses _))
  dispatch_to-Refuses Method.chmod =
      text_arg-Refuses _ _ (λ a. natural_arg-Refuses _ _ _ (λ b. last-Refuses _))
  dispatch_to-Refuses Method.chown =
      text_arg-Refuses _ _
        (λ a. natural_arg-Refuses _ _ _ (λ b. natural_arg-Refuses _ _ _ (λ c. last-Refuses _)))
  dispatch_to-Refuses Method.truncate =
      text_arg-Refuses _ _ (λ a. signed_arg-Refuses _ _ _ (λ b. last-Refuses _))
  dispatch_to-Refuses Method.open_file =
      text_arg-Refuses _ _ (λ a. signed_arg-Refuses _ _ _ (λ b. last-Refuses _))
  dispatch_to-Refuses Method.read = text_arg-Refuses _ _ (λ a.
      signed_arg-Refuses _ _ _
        (λ b. natural_arg-Refuses _ _ _ (λ c. signed_arg-Refuses _ _ _ (λ d. last-Refuses _))))
  dispatch_to-Refuses Method.write = text_arg-Refuses _ _ (λ a.
      signed_arg-Refuses _ _ _
        (λ b. signed_arg-Refuses _ _ _ (λ c. raw_arg-Refuses _ _ (λ d. last-Refuses _))))
  dispatch_to-Refuses Method.stat_fs = text_arg-Refuses _ _ (λ a. last-Refuses _)
  dispatch_to-Refuses Method.flush =
      text_arg-Refuses _ _ (λ a. signed_arg-Refuses _ _ _ (λ b. last-Refuses _))
  dispatch_to-Refuses Method.release =
      text_arg-Refuses _ _ (λ a. signed_arg-Refuses _ _ _ (λ b. last-Refuses _))
  dispatch_to-Refuses Method.fsync =
      text_arg-Refuses _ _
        (λ a. signed_arg-Refuses _ _ _ (λ b. signed_arg-Refuses _ _ _ (λ c. last-Refuses _)))
  dispatch_to-Refuses Method.set_xattr = text_arg-Refuses _ _ (λ a. text_arg-Refuses _ _ (λ b.
      text_arg-Refuses _ _
        (λ c. natural_arg-Refuses _ _ _ (λ d. signed_arg-Refuses _ _ _ (λ e. last-Refuses _)))))
  dispatch_to-Refuses Method.get_xattr = text_arg-Refuses _ _ (λ a.
      text_arg-Refuses _ _
        (λ b. text_arg-Refuses _ _ (λ c. natural_arg-Refuses _ _ _ (λ d. last-Refuses _))))
  dispatch_to-Refuses Method.list_xattr =
      text_arg-Refuses _ _
        (λ a. text_arg-Refuses _ _ (λ b. natural_arg-Refuses _ _ _ (λ c. last-Refuses _)))
  dispatch_to-Refuses Method.remove_xattr =
      text_arg-Refuses _ _ (λ a. text_arg-Refuses _ _ (λ b. last-Refuses _))
  dispatch_to-Refuses Method.read_dir =
      text_arg-Refuses _ _
        (λ a. signed_arg-Refuses _ _ _ (λ b. signed_arg-Refuses _ _ _ (λ c. last-Refuses _)))
  dispatch_to-Refuses Method.fsync_dir =
      text_arg-Refuses _ _ (λ a. signed_arg-Refuses _ _ _ (λ b. last-Refuses _))
  dispatch_to-Refuses Method.access =
      text_arg-Refuses _ _ (λ a. signed_arg-Refuses _ _ _ (λ b. last-Refuses _))
  dispatch_to-Refuses Method.create =
      text_arg-Refuses _ _
        (λ a. signed_arg-Refuses _ _ _ (λ b. natural_arg-Refuses _ _ _ (λ c. last-Refuses _)))
  dispatch_to-Refuses Method.ftruncate =
      text_arg-Refuses _ _
        (λ a. signed_arg-Refuses _ _ _ (λ b. signed_arg-Refuses _ _ _ (λ c. last-Refuses _)))
  dispatch_to-Refuses Method.fget_attr =
      text_arg-Refuses _ _ (λ a. signed_arg-Refuses _ _ _ (λ b. last-Refuses _))
  dispatch_to-Refuses Method.lock =
      text_arg-Refuses _ _
        (λ a. signed_arg-Refuses _ _ _ (λ b. signed_arg-Refuses _ _ _ (λ c. last-Refuses _)))
  dispatch_to-Refuses Method.utimens =
      text_arg-Refuses _ _
        (λ a. time_arg-Refuses _ _ (λ b. time_arg-Refuses _ _ (λ c. last-Refuses _)))
  dispatch_to-Refuses Method.file_prev_read = text_arg-Refuses _ _ (λ a. last-Refuses _)
  dispatch_to-Refuses Method.file_flush = text_arg-Refuses _ _ (λ a. last-Refuses _)
  dispatch_to-Refuses Method.local_file_export = last-Refuses _

  -- A request whose parameters do not convert is answered with an error, and nothing changes.
  pub dispatch_refuses :
      (req : Request) (v : Server P)
      → accepts req ≡ false
      → dispatch P fuel junk req v ≡ (error_reply, v)
  unfolding dispatch accepts
  dispatch_refuses req v e = dispatch_to-Refuses req.method req.params v e
