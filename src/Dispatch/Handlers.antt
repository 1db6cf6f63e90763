-- ===== src/Dispatch/Handlers.antt =====
-- BurstBuffer::dispatch in src/cbb/burst_buffer.cc: the handler of each method, its parameters from
-- the request, and its reply. A parameter of another kind, or out of its type's range, is refused.
-- A descriptor or a set of flags below zero stands as its bit pattern of 32 bits.
use cbb.Prelude.{
  zero, suc, ℕ, ◌-◌, ◌^◌, Bool, ℤ, pos, negsuc, List, [], ◌∷◌, Option, none, some, ltb,
  if◌then◌else◌,
}
use cbb.Text.{Bytes}
use cbb.Common.{Error, FileStat, StatVfs, TimeSpec, dir_local, dir_secondary, dir_all, cbb_success}
use cbb.StdMap.{Map}
use cbb.Posix.{Posix}
use cbb.Server.{result, error_reply, no_reply, Handler}
use cbb.Server.Attributes
use cbb.Server.Files
use cbb.Server.Links
use cbb.Server.Names
use cbb.Server.ReadDir
use cbb.Server.ReadDir.{Listed}
use cbb.Server.Directories
use cbb.Server.XAttrs
use cbb.Client.{Method, Param, text, num, raw, time, Request, Response}

-- The range of a signed type of so many bits.
abbrev pub in_range : ℕ → ℤ → Bool
in_range bound (pos n) = ltb n bound
in_range bound (negsuc n) = ltb n bound

-- The 32 bits of an int.
abbrev pub pattern_of : ℤ → ℕ
pattern_of (pos n) = n
pattern_of (negsuc n) = 2 ^ 32 - 1 - n

-- What is stored of attributes that a handler has not set.
pub record Junk : Type 0 where
  pub file_stat : FileStat
  pub stat_vfs : StatVfs

abbrev pub stored {ℓ} : {A : Type ℓ} → A → Option A → A
stored junk none = junk
stored junk (some a) = a

abbrev pub Branch : Posix → Type 0
Branch P = List Param → Handler P Response

module _ {P : Posix} where
  -- ARGUMENT_ERROR
  abbrev pub refused : Handler P Response
  refused v = (error_reply, v)

  abbrev pub finish : Handler P Response → Branch P
  finish h params = h

  abbrev pub text_arg : (Bytes → Branch P) → Branch P
  text_arg k (text t ∷ params) v = k t params v
  text_arg k _ v = refused v

  abbrev pub raw_arg : (Bytes → Branch P) → Branch P
  raw_arg k (raw r ∷ params) v = k r params v
  raw_arg k _ v = refused v

  abbrev pub time_arg : (TimeSpec → Branch P) → Branch P
  time_arg k (time t ∷ params) v = k t params v
  time_arg k _ v = refused v

  -- mode_t, uid_t and gid_t, and size_t
  abbrev pub natural_arg : ℕ → (ℕ → Branch P) → Branch P
  natural_arg bound k (num (pos n) ∷ params) v = if ltb n bound then k n params v else refused v
  natural_arg bound k _ v = refused v

  abbrev pub uint_arg : (ℕ → Branch P) → Branch P
  uint_arg k = natural_arg (2 ^ 32) k

  abbrev pub size_arg : (ℕ → Branch P) → Branch P
  size_arg k = natural_arg (2 ^ 64) k

  abbrev pub signed_arg : ℕ → (ℤ → Branch P) → Branch P
  signed_arg bound k (num n ∷ params) v = if in_range bound n then k n params v else refused v
  signed_arg bound k _ v = refused v

  abbrev pub off_arg : (ℤ → Branch P) → Branch P
  off_arg k = signed_arg (2 ^ 63) k

  abbrev pub int_arg : (ℤ → Branch P) → Branch P
  int_arg k = signed_arg (2 ^ 31) k

  abbrev pub fd_arg : (ℕ → Branch P) → Branch P
  fd_arg k = int_arg (λ n. k (pattern_of n))

module _ (P : Posix) (fuel : ℕ) (junk : Junk) where
  -- The reply with a code; the other parts are not sent.
  abbrev pub code_reply : ℤ → Response
  code_reply code = record {
    code = code;
    file_stat = junk.file_stat;
    data_text = [];
    file_stats = [];
    stat_vfs = junk.stat_vfs;
  }

  abbrev pub text_reply : ℤ × Bytes → Response
  text_reply (code, bs) = record (code_reply code) { data_text = bs }

  abbrev pub sized_reply : ℤ × Bytes → Response
  sized_reply (ssize, bs) = record (code_reply ssize) { data_text = bs }

  abbrev pub xattr_reply : ℕ × Bytes → Response
  xattr_reply (ret, bs) = record (code_reply (pos ret)) { data_text = bs }

  abbrev pub attr_reply : Error × Option FileStat × Bytes → Response
  attr_reply (error, st, link_path) = record (code_reply error) {
    file_stat = stored junk.file_stat st;
    data_text = link_path;
  }

  abbrev pub fattr_reply : Error × Option FileStat → Response
  fattr_reply (error, st) = record (code_reply error) { file_stat = stored junk.file_stat st }

  abbrev pub vfs_reply : Error × Option StatVfs → Response
  vfs_reply (error, st) = record (code_reply error) { stat_vfs = stored junk.stat_vfs st }

  abbrev pub dir_reply : Error × Map Listed → Response
  dir_reply (error, file_stats) = record (code_reply error) { file_stats = file_stats }

  -- req.result
  abbrev pub reply : {A : Type 0} → (A → Response) → Handler P A → Handler P Response
  reply f h v =
      let (r, w) = h v in
      elim r [
        | result a ↦ (result (f a), w)
        | error_reply ↦ (error_reply, w)
        | no_reply ↦ (no_reply, w)
      ]

  -- The reading type of ReadDir: one that it does not name reads nothing.
  abbrev pub list_dir : Bytes → ℤ → ℤ → Handler P (Error × Map Listed)
  list_dir path offset (pos (suc zero)) v = ReadDir.read_dir P path offset dir_local v
  list_dir path offset (pos (suc (suc zero))) v = ReadDir.read_dir P path offset dir_secondary v
  list_dir path offset (pos (suc (suc (suc zero)))) v = ReadDir.read_dir P path offset dir_all v
  list_dir path offset _ v = (result (cbb_success, []), v)

  -- The branches of dispatch.
  unfoldable pub dispatch_to : Method → Branch P
  dispatch_to Method.get_attr = text_arg (λ a. finish (reply attr_reply (Attributes.get_attr P a)))
  dispatch_to Method.read_link =
      text_arg (λ a. size_arg (λ b. finish (reply text_reply (Links.read_link P a b))))
  dispatch_to Method.mk_dir =
      text_arg (λ a. uint_arg (λ b. finish (reply code_reply (Names.mk_dir P a b))))
  dispatch_to Method.unlink = text_arg (λ a. finish (reply code_reply (Names.unlink P a)))
  dispatch_to Method.rm_dir = text_arg (λ a. finish (reply code_reply (Names.rm_dir P a)))
  dispatch_to Method.symlink =
      text_arg (λ a. text_arg (λ b. finish (reply code_reply (Names.symlink P a b))))
  dispatch_to Method.rename =
      text_arg (λ a. text_arg (λ b. finish (reply code_reply (Directories.rename P fuel a b))))
  dispatch_to Method.link =
      text_arg (λ a. text_arg (λ b. finish (reply code_reply (Names.link P a b))))
  dispatch_to Method.chmod =
      text_arg (λ a. uint_arg (λ b. finish (reply code_reply (Attributes.chmod P a b))))
  dispatch_to Method.chown =
      text_arg
        (λ a. uint_arg (λ b. uint_arg (λ c. finish (reply code_reply (Attributes.chown P a b c)))))
  dispatch_to Method.truncate =
      text_arg (λ a. off_arg (λ b. finish (reply code_reply (Attributes.truncate P a b))))
  dispatch_to Method.open_file =
      text_arg (λ a. fd_arg (λ b. finish (reply code_reply (Files.open_file P a b))))
  dispatch_to Method.read = text_arg (λ a.
      fd_arg
        (λ b. size_arg (λ c. off_arg (λ d. finish (reply sized_reply (Files.read P a b c d))))))
  dispatch_to Method.write = text_arg (λ a.
      fd_arg (λ b. off_arg (λ c. raw_arg (λ d. finish (reply code_reply (Files.write P a b c d))))))
  dispatch_to Method.stat_fs = text_arg (λ a. finish (reply vfs_reply (XAttrs.stat_fs P a)))
  dispatch_to Method.flush =
      text_arg (λ a. fd_arg (λ b. finish (reply code_reply (Files.flush P a b))))
  dispatch_to Method.release =
      text_arg (λ a. fd_arg (λ b. finish (reply code_reply (Files.release P a b))))
  dispatch_to Method.fsync =
      text_arg (λ a. fd_arg (λ b. int_arg (λ c. finish (reply code_reply (Files.fsync P a b c)))))
  dispatch_to Method.set_xattr = text_arg (λ a. text_arg (λ b. text_arg (λ c.
      size_arg (λ d. fd_arg (λ e. finish (reply code_reply (Attributes.set_xattr P a b c d e)))))))
  dispatch_to Method.get_xattr = text_arg (λ a. text_arg (λ b.
      text_arg (λ c. size_arg (λ d. finish (reply xattr_reply (XAttrs.get_xattr P a b c d))))))
  dispatch_to Method.list_xattr =
      text_arg (λ a.
        text_arg (λ b. size_arg (λ c. finish (reply xattr_reply (XAttrs.list_xattr P a b c)))))
  dispatch_to Method.remove_xattr =
      text_arg (λ a. text_arg (λ b. finish (reply code_reply (Attributes.remove_xattr P a b))))
  dispatch_to Method.read_dir =
      text_arg (λ a. off_arg (λ b. int_arg (λ c. finish (reply dir_reply (list_dir a b c)))))
  dispatch_to Method.fsync_dir =
      text_arg (λ a. int_arg (λ b. finish (reply code_reply (XAttrs.fsync_dir P a b))))
  dispatch_to Method.access =
      text_arg (λ a. fd_arg (λ b. finish (reply code_reply (Attributes.access P a b))))
  dispatch_to Method.create =
      text_arg (λ a. fd_arg (λ b. uint_arg (λ c. finish (reply code_reply (Files.create P a b c)))))
  dispatch_to Method.ftruncate =
      text_arg
        (λ a. fd_arg (λ b. off_arg (λ c. finish (reply code_reply (Files.ftruncate P a b c)))))
  dispatch_to Method.fget_attr =
      text_arg (λ a. fd_arg (λ b. finish (reply fattr_reply (Attributes.fget_attr P a b))))
  dispatch_to Method.lock =
      text_arg
        (λ a. fd_arg (λ b. int_arg (λ c. finish (reply code_reply (Attributes.lock P a b c)))))
  dispatch_to Method.utimens =
      text_arg (λ a.
        time_arg (λ b. time_arg (λ c. finish (reply code_reply (Attributes.utimens P a b c)))))
  dispatch_to Method.file_prev_read =
      text_arg (λ a. finish (reply code_reply (Files.file_prev_read P a)))
  dispatch_to Method.file_flush = text_arg (λ a. finish (reply code_reply (Files.file_flush P a)))
  dispatch_to Method.local_file_export = finish (reply code_reply (Files.local_file_export P))

  unfoldable pub dispatch : Request → Handler P Response
  unfolding dispatch_to
  dispatch req = dispatch_to req.method req.params
