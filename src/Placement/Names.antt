-- ===== src/Placement/Names.antt =====
-- The operations of src/cbb/burst_buffer_client.cc on names keep the placement.
use cbb.Prelude.{ℕ, ℤ, refl, Bool, true, false, Option, if◌then◌else◌}
use cbb.Text.{Bytes}
use cbb.Posix.{Posix}
use cbb.Common.{Error}
use cbb.Server.{Server}
use cbb.Client.{Request, Network, M, pure, ◌>>=◌, call_at, call_all}
use cbb.Client.Names
use cbb.Client.Names.{Attr}
use cbb.Dispatch.Handlers.{Junk}
use cbb.System.{Delivers}
use cbb.Placement.{Isolates, KeepsPlaces}
use cbb.Placement.Calls.{
  OpensNone, pure-KeepsPlaces, bind-KeepsPlaces, if-KeepsPlaces, quiet_call_at-KeepsPlaces,
  code_at-KeepsPlaces, call_all-KeepsPlaces,
}
use cbb.Placement.Tables.{may_open}

module _ (P : Posix) (fuel : ℕ) (junk : Junk) (N : Network)
    (server_at : N.World → Bytes → ℕ → Option (Server P)) (D : Delivers P fuel junk N server_at)
    (I : Isolates P N server_at) where
  abbrev Keeps : {A : Type 0} → M N A → Type 0
  Keeps m = KeepsPlaces P N server_at m

  abbrev at :
      (path : Bytes) (req : Request)
      → OpensNone P fuel junk N server_at D I req
      → Keeps (call_at N path req)
  at = quiet_call_at-KeepsPlaces P fuel junk N server_at D I

  abbrev then_do :
      {A B : Type 0} (m : M N A) (f : A → M N B)
      → Keeps m
      → ((a : A) → Keeps (f a))
      → Keeps (m >>= f)
  then_do = bind-KeepsPlaces P fuel junk N server_at D I

  abbrev done : {A : Type 0} (a : A) → Keeps (pure a)
  done = pure-KeepsPlaces P fuel junk N server_at D I

  abbrev either :
      {A : Type 0} (b : Bool) (m n : M N A) → Keeps m → Keeps n → Keeps (if b then m else n)
  either = if-KeepsPlaces P fuel junk N server_at D I

  abbrev on_all :
      (req : Request) (error : Error)
      → OpensNone P fuel junk N server_at D I req
      → Keeps (call_all N req error)
  on_all = call_all-KeepsPlaces P fuel junk N server_at D I

  get_attr_ex_internal-KeepsPlaces : (path : Bytes) → Keeps (Names.get_attr_ex_internal N path)
  unfolding Names.get_attr_ex_internal may_open
  get_attr_ex_internal-KeepsPlaces path = then_do _ _ (at path _ (λ q. refl)) (λ r. done _)

  get_attr_of_link-KeepsPlaces : (path : Bytes) → Keeps (Names.get_attr_of_link N path)
  unfolding Names.get_attr_of_link
  get_attr_of_link-KeepsPlaces path = then_do _ _ (get_attr_ex_internal-KeepsPlaces _) (λ a.
      either _ _ _ (get_attr_ex_internal-KeepsPlaces _)
        (either _ _ _ (then_do _ _ (get_attr_ex_internal-KeepsPlaces _) (λ b. done _)) (done _)))

  get_attr_ex-KeepsPlaces : (path : Bytes) → Keeps (Names.get_attr_ex N path)
  unfolding Names.get_attr_ex
  get_attr_ex-KeepsPlaces path =
      then_do _ _ (get_attr_ex_internal-KeepsPlaces _)
        (λ a. either _ _ _ (get_attr_of_link-KeepsPlaces path) (done _))

  pub get_attr-KeepsPlaces : (path : Bytes) → Keeps (Names.get_attr N path)
  unfolding Names.get_attr
  get_attr-KeepsPlaces path = get_attr_ex-KeepsPlaces path

  pub read_link-KeepsPlaces : (path : Bytes) (size : ℕ) → Keeps (Names.read_link N path size)
  unfolding Names.read_link may_open
  read_link-KeepsPlaces path size = then_do _ _ (get_attr_ex_internal-KeepsPlaces _) (λ a.
      then_do _ _ (either _ _ _ (get_attr_ex_internal-KeepsPlaces _) (done a))
        (λ b. either _ _ _ (then_do _ _ (at path _ (λ q. refl)) (λ r. done _)) (done _)))

  pub mk_dir-KeepsPlaces :
      (path : Bytes) (mode : ℕ) (e : Error) → Keeps (Names.mk_dir N path mode e)
  unfolding Names.mk_dir may_open
  mk_dir-KeepsPlaces path mode e = on_all _ e (λ q. refl)

  unlink_internal-KeepsPlaces :
      (path : Bytes) (b : Bool) (e : Error) → Keeps (Names.unlink_internal N path b e)
  unfolding Names.unlink_internal may_open
  unlink_internal-KeepsPlaces path b e =
      either b _ _ (on_all _ e (λ q. refl))
        (code_at-KeepsPlaces P fuel junk N server_at D I path _ (λ q. refl))

  pub unlink-KeepsPlaces : (path : Bytes) (e : Error) → Keeps (Names.unlink N path e)
  unfolding Names.unlink
  unlink-KeepsPlaces path e = then_do _ _ (get_attr_ex_internal-KeepsPlaces _) (λ a.
      either _ _ _
        (then_do _ _ (get_attr_ex_internal-KeepsPlaces _) (λ b.
          either _ _ _ (unlink_internal-KeepsPlaces path true e)
            (unlink_internal-KeepsPlaces _ false e)))
        (unlink_internal-KeepsPlaces _ false e))

  pub rm_dir-KeepsPlaces : (path : Bytes) (e : Error) → Keeps (Names.rm_dir N path e)
  unfolding Names.rm_dir may_open
  rm_dir-KeepsPlaces path e = on_all _ e (λ q. refl)

  -- An operation that goes to all servers for a directory, and else to one.
  directory_or_file-KeepsPlaces :
      (path at_path : Bytes) (b : Attr → Bool) (for_all for_one : Attr → Request)
      → ((a : Attr) → OpensNone P fuel junk N server_at D I (for_all a))
      → ((a : Attr) → OpensNone P fuel junk N server_at D I (for_one a))
      → Keeps (
          Names.get_attr_ex N path >>= λ a.
          if b a
          then call_all N (for_all a) a.error
          else (call_at N at_path (for_one a) >>= λ r. pure a.error))
  directory_or_file-KeepsPlaces path at_path b for_all for_one all_none one_none =
      then_do _ _ (get_attr_ex-KeepsPlaces path) (λ a.
        either _ _ _ (on_all (for_all a) a.error (all_none a))
          (then_do _ _ (at at_path (for_one a) (one_none a)) (λ r. done _)))

  pub symlink-KeepsPlaces : (path link : Bytes) → Keeps (Names.symlink N path link)
  unfolding Names.symlink may_open
  symlink-KeepsPlaces path link =
      directory_or_file-KeepsPlaces path _ _ _ _ (λ a q. refl) (λ a q. refl)

  pub rename-KeepsPlaces : (old_path new_path : Bytes) → Keeps (Names.rename N old_path new_path)
  unfolding Names.rename may_open
  rename-KeepsPlaces old_path new_path =
      directory_or_file-KeepsPlaces old_path _ _ _ _ (λ a q. refl) (λ a q. refl)

  pub link-KeepsPlaces : (path newpath : Bytes) → Keeps (Names.link N path newpath)
  unfolding Names.link may_open
  link-KeepsPlaces path newpath =
      directory_or_file-KeepsPlaces path _ _ _ _ (λ a q. refl) (λ a q. refl)

  pub set_xattr-KeepsPlaces :
      (path name value : Bytes) (size : ℕ) (flags : ℤ)
      → Keeps (Names.set_xattr N path name value size flags)
  unfolding Names.set_xattr may_open
  set_xattr-KeepsPlaces path name value size flags =
      directory_or_file-KeepsPlaces path _ _ _ _ (λ a q. refl) (λ a q. refl)
