-- ===== src/Placement/Attributes.antt =====
-- The operations of src/cbb/burst_buffer_client.cc on attributes keep the placement.
use cbb.Prelude.{ℕ, ℤ, refl, Option}
use cbb.Text.{Bytes}
use cbb.Posix.{Posix}
use cbb.Common.{TimeSpec}
use cbb.Server.{Server}
use cbb.Client.{Request, Network, M, pure, call_at, ◌>>=◌}
use cbb.Client.Attributes
use cbb.Dispatch.Handlers.{Junk}
use cbb.System.{Delivers}
use cbb.Placement.{Isolates, KeepsPlaces}
use cbb.Placement.Calls.{
  OpensNone, pure-KeepsPlaces, bind-KeepsPlaces, quiet_call_at-KeepsPlaces, code_at-KeepsPlaces,
}
use cbb.Placement.Tables.{may_open}

module _ (P : Posix) (fuel : ℕ) (junk : Junk) (N : Network)
    (server_at : N.World → Bytes → ℕ → Option (Server P)) (D : Delivers P fuel junk N server_at)
    (I : Isolates P N server_at) where
  abbrev Keeps : {A : Type 0} → M N A → Type 0
  Keeps m = KeepsPlaces P N server_at m

  abbrev at :
      (path : Bytes) (req : Request)
      → OpensNone P fuel junk N server_at D I req
      → Keeps (call_at N path req)
  at = quiet_call_at-KeepsPlaces P fuel junk N server_at D I

  abbrev then_do :
      {A B : Type 0} (m : M N A) (f : A → M N B)
      → Keeps m
      → ((a : A) → Keeps (f a))
      → Keeps (m >>= f)
  then_do = bind-KeepsPlaces P fuel junk N server_at D I

  abbrev done : {A : Type 0} (a : A) → Keeps (pure a)
  done = pure-KeepsPlaces P fuel junk N server_at D I

  pub chmod-KeepsPlaces : (path : Bytes) (mode : ℕ) → Keeps (Attributes.chmod N path mode)
  unfolding Attributes.chmod may_open
  chmod-KeepsPlaces path mode = code_at-KeepsPlaces P fuel junk N server_at D I path _ (λ q. refl)

  pub chown-KeepsPlaces : (path : Bytes) (uid gid : ℕ) → Keeps (Attributes.chown N path uid gid)
  unfolding Attributes.chown may_open
  chown-KeepsPlaces path uid gid =
      code_at-KeepsPlaces P fuel junk N server_at D I path _ (λ q. refl)

  pub truncate-KeepsPlaces : (path : Bytes) (size : ℤ) → Keeps (Attributes.truncate N path size)
  unfolding Attributes.truncate may_open
  truncate-KeepsPlaces path size =
      code_at-KeepsPlaces P fuel junk N server_at D I path _ (λ q. refl)

  pub access-KeepsPlaces : (path : Bytes) (mode : ℤ) → Keeps (Attributes.access N path mode)
  unfolding Attributes.access may_open
  access-KeepsPlaces path mode = code_at-KeepsPlaces P fuel junk N server_at D I path _ (λ q. refl)

  pub utimens-KeepsPlaces :
      (path : Bytes) (time0 time1 : TimeSpec) → Keeps (Attributes.utimens N path time0 time1)
  unfolding Attributes.utimens may_open
  utimens-KeepsPlaces path time0 time1 =
      code_at-KeepsPlaces P fuel junk N server_at D I path _ (λ q. refl)

  pub get_xattr-KeepsPlaces :
      (path name value : Bytes) (size : ℕ) → Keeps (Attributes.get_xattr N path name value size)
  unfolding Attributes.get_xattr may_open
  get_xattr-KeepsPlaces path name value size = then_do _ _ (at path _ (λ q. refl)) (λ r. done _)

  pub list_xattr-KeepsPlaces :
      (path list : Bytes) (size : ℕ) → Keeps (Attributes.list_xattr N path list size)
  unfolding Attributes.list_xattr may_open
  list_xattr-KeepsPlaces path list size = then_do _ _ (at path _ (λ q. refl)) (λ r. done _)

  pub remove_xattr-KeepsPlaces : (path name : Bytes) → Keeps (Attributes.remove_xattr N path name)
  unfolding Attributes.remove_xattr may_open
  remove_xattr-KeepsPlaces path name =
      code_at-KeepsPlaces P fuel junk N server_at D I path _ (λ q. refl)

  pub fget_attr-KeepsPlaces : (path : Bytes) (fd : ℕ) → Keeps (Attributes.fget_attr N path fd)
  unfolding Attributes.fget_attr may_open
  fget_attr-KeepsPlaces path fd = then_do _ _ (at path _ (λ q. refl)) (λ r. done _)

  pub stat_fs-KeepsPlaces : (path : Bytes) → Keeps (Attributes.stat_fs N path)
  unfolding Attributes.stat_fs may_open
  stat_fs-KeepsPlaces path = then_do _ _ (at path _ (λ q. refl)) (λ r. done _)
