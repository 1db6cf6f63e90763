-- ===== src/Dispatch/Frame.antt =====
-- What every request of BurstBuffer::dispatch in src/cbb/burst_buffer.cc does to the server, from what
-- the handlers do that change more than the storages.
use cbb.Dispatch.Arguments.{
  time_arg-Moves, text_arg-Moves, signed_arg-Moves, raw_arg-Moves, natural_arg-Moves, Moves,
  BranchMoves,
}
use cbb.Prelude.{zero, suc, arith, ◌≡◌, ℕ, ℤ, pos, negsuc}
use cbb.Text.{Bytes}
use cbb.Posix.{Posix}
use cbb.Manager
use cbb.Server.Attributes
use cbb.Server.Directories
use cbb.Server.Files
use cbb.Server.Links
use cbb.Server.Names
use cbb.Server.ReadDir
use cbb.Server.XAttrs
use cbb.Server.{Server, Handler, Reply}
use cbb.Client.{Request, Method, Response}
use cbb.Dispatch.Handlers.{
  fattr_reply, dir_reply, xattr_reply, vfs_reply, sized_reply, code_reply, text_reply, attr_reply,
  pattern_of, list_dir, dispatch_to, dispatch, reply, finish, Junk, Branch, text_arg, natural_arg,
  signed_arg,
}

module _ (P : Posix) (fuel : ℕ) (junk : Junk) where
  pub reply-second :
      {A : Type 0} (f : A → Response) (h : Handler P A) (v : Server P)
      → (reply P fuel junk f h v).1 ≡ (h v).1
  reply-second f h v = ground arith

  -- The handlers that change the table of the manager or that of the exporter, for the methods that
  -- are considered.
  pub record MovesTables (Allowed : Method → Type 0) (R : Server P → Server P → Type 0)
      : Type 0 where
    pub fs : (v : Server P) (s : P.State) → R v (record v { fs = s })
    pub unlink : Allowed Method.unlink → (a : Bytes) → Moves P R (Names.unlink P a)
    pub rename : Allowed Method.rename → (a b : Bytes) → Moves P R (Directories.rename P fuel a b)
    pub open_file :
        Allowed Method.open_file → (a : Bytes) (b : ℕ) → Moves P R (Files.open_file P a b)
    pub create : Allowed Method.create → (a : Bytes) (b c : ℕ) → Moves P R (Files.create P a b c)
    pub release : Allowed Method.release → (a : Bytes) (b : ℕ) → Moves P R (Files.release P a b)
    pub file_flush : Allowed Method.file_flush → (a : Bytes) → Moves P R (Files.file_flush P a)
    pub local_file_export : Allowed Method.local_file_export → Moves P R (Files.local_file_export P)

  read-second : (a : Bytes) (b c : ℕ) (d : ℤ) (v : Server P) → (Files.read P a b c d v).1 ≡ v
  unfolding Files.read
  read-second a b c d v = ground arith

  stat_fs-second : (a : Bytes) (v : Server P) → (XAttrs.stat_fs P a v).1 ≡ v
  unfolding XAttrs.stat_fs
  stat_fs-second a v = ground arith

  read_link-second : (a : Bytes) (b : ℕ) (v : Server P) → (Links.read_link P a b v).1 ≡ v
  unfolding Links.read_link
  read_link-second a b v = ground arith

  file_prev_read-second :
      (a : Bytes) (v : Server P)
      → (Files.file_prev_read P a v).1
        ≡ record v { fs = (Manager.copy_secondary_to_local P a v.md_manager v.fs).1 }
  unfolding Files.file_prev_read
  file_prev_read-second a v = ground arith

  module _ (Allowed : Method → Type 0) (R : Server P → Server P → Type 0)
      (T : MovesTables Allowed R) where
    stays : (v : Server P) → R v v
    stays v = T.fs v v.fs

    abbrev After : Server P → Reply Response × Server P → Type 0
    After v (r, w) = R v w

    reply-Moves :
        {A : Type 0} (f : A → Response) (h : Handler P A)
        → Moves P R h
        → BranchMoves P After (finish (reply P fuel junk f h))
    reply-Moves f h moves = record { at = λ params v. rw (reply-second f h v) (moves v) }

    list_dir-Moves : (a : Bytes) (b c : ℤ) → Moves P R (list_dir P fuel junk a b c)
    unfolding ReadDir.read_dir
    list_dir-Moves a b (pos zero) v = stays v
    list_dir-Moves a b (pos (suc zero)) v = stays v
    list_dir-Moves a b (pos (suc (suc zero))) v = stays v
    list_dir-Moves a b (pos (suc (suc (suc zero)))) v = stays v
    list_dir-Moves a b (pos (suc (suc (suc (suc n))))) v = stays v
    list_dir-Moves a b (negsuc n) v = stays v

    read_link-Moves : (a : Bytes) (b : ℕ) → Moves P R (Links.read_link P a b)
    read_link-Moves a b v = rw (read_link-second a b v) (stays v)

    stat_fs-Moves : (a : Bytes) → Moves P R (XAttrs.stat_fs P a)
    stat_fs-Moves a v = rw (stat_fs-second a v) (stays v)

    file_prev_read-Moves : (a : Bytes) → Moves P R (Files.file_prev_read P a)
    file_prev_read-Moves a v = rw (file_prev_read-second a v) (T.fs v _)

    -- A branch: its parameters, and its handler.
    abbrev texts :
        (k : Bytes → Branch P)
        → ((a : Bytes) → BranchMoves P After (k a))
        → BranchMoves P After (text_arg k)
    texts = text_arg-Moves P After stays

    abbrev naturals :
        (bound : ℕ) (k : ℕ → Branch P)
        → ((a : ℕ) → BranchMoves P After (k a))
        → BranchMoves P After (natural_arg bound k)
    naturals = natural_arg-Moves P After stays

    abbrev signeds :
        (bound : ℕ) (k : ℤ → Branch P)
        → ((a : ℤ) → BranchMoves P After (k a))
        → BranchMoves P After (signed_arg bound k)
    signeds = signed_arg-Moves P After stays

    dispatch_to-Moves : (m : Method) → Allowed m → BranchMoves P After (dispatch_to P fuel junk m)
    unfolding dispatch_to Attributes.get_attr Names.mk_dir Names.rm_dir Names.symlink Names.link
        Attributes.chmod Attributes.chown Attributes.truncate Files.read Files.write Files.flush
        Files.fsync Attributes.set_xattr XAttrs.get_xattr XAttrs.list_xattr Attributes.remove_xattr
        XAttrs.fsync_dir Attributes.access Files.ftruncate Attributes.fget_attr Attributes.lock
        Attributes.utimens
    dispatch_to-Moves Method.get_attr ok =
        texts _ (λ a. reply-Moves (attr_reply P fuel junk) (Attributes.get_attr P a) (λ v. stays v))
    dispatch_to-Moves Method.read_link ok = texts _ (λ a.
        naturals _ _
          (λ b. reply-Moves (text_reply P fuel junk) (Links.read_link P a b) (read_link-Moves a b)))
    dispatch_to-Moves Method.mk_dir ok = texts _ (λ a.
        naturals _ _
          (λ b. reply-Moves (code_reply P fuel junk) (Names.mk_dir P a b) (λ v. T.fs v _)))
    dispatch_to-Moves Method.unlink ok =
        texts _ (λ a. reply-Moves (code_reply P fuel junk) (Names.unlink P a) (T.unlink ok a))
    dispatch_to-Moves Method.rm_dir ok =
        texts _ (λ a. reply-Moves (code_reply P fuel junk) (Names.rm_dir P a) (λ v. T.fs v _))
    dispatch_to-Moves Method.symlink ok = texts _ (λ a.
        texts _ (λ b. reply-Moves (code_reply P fuel junk) (Names.symlink P a b) (λ v. T.fs v _)))
    dispatch_to-Moves Method.rename ok = texts _ (λ a. texts _ (λ b.
        reply-Moves (code_reply P fuel junk) (Directories.rename P fuel a b) (T.rename ok a b)))
    dispatch_to-Moves Method.link ok = texts _ (λ a.
        texts _ (λ b. reply-Moves (code_reply P fuel junk) (Names.link P a b) (λ v. T.fs v _)))
    dispatch_to-Moves Method.chmod ok = texts _ (λ a.
        naturals _ _
          (λ b. reply-Moves (code_reply P fuel junk) (Attributes.chmod P a b) (λ v. T.fs v _)))
    dispatch_to-Moves Method.chown ok = texts _ (λ a. naturals _ _ (λ b.
        naturals _ _
          (λ c. reply-Moves (code_reply P fuel junk) (Attributes.chown P a b c) (λ v. T.fs v _))))
    dispatch_to-Moves Method.truncate ok = texts _ (λ a.
        signeds _ _
          (λ b. reply-Moves (code_reply P fuel junk) (Attributes.truncate P a b) (λ v. T.fs v _)))
    dispatch_to-Moves Method.open_file ok = texts _ (λ a. signeds _ _ (λ b.
        reply-Moves (code_reply P fuel junk) (Files.open_file P a (pattern_of b))
          (T.open_file ok a (pattern_of b))))
    dispatch_to-Moves Method.read ok = texts _ (λ a. signeds _ _ (λ b. naturals _ _ (λ c.
        signeds _ _ (λ d.
          reply-Moves (sized_reply P fuel junk) (Files.read P a (pattern_of b) c d)
            (λ v. rw (read-second a (pattern_of b) c d v) (stays v))))))
    dispatch_to-Moves Method.write ok = texts _ (λ a. signeds _ _ (λ b. signeds _ _ (λ c.
        raw_arg-Moves P After stays _ (λ d.
          reply-Moves (code_reply P fuel junk) (Files.write P a (pattern_of b) c d)
            (λ v. T.fs v _)))))
    dispatch_to-Moves Method.stat_fs ok =
        texts _ (λ a. reply-Moves (vfs_reply P fuel junk) (XAttrs.stat_fs P a) (stat_fs-Moves a))
    dispatch_to-Moves Method.flush ok = texts _ (λ a. signeds _ _ (λ b.
        reply-Moves (code_reply P fuel junk) (Files.flush P a (pattern_of b)) (λ v. T.fs v _)))
    dispatch_to-Moves Method.release ok = texts _ (λ a. signeds _ _ (λ b.
        reply-Moves (code_reply P fuel junk) (Files.release P a (pattern_of b))
          (T.release ok a (pattern_of b))))
    dispatch_to-Moves Method.fsync ok = texts _ (λ a. signeds _ _ (λ b. signeds _ _ (λ c.
        reply-Moves (code_reply P fuel junk) (Files.fsync P a (pattern_of b) c) (λ v. T.fs v _))))
    dispatch_to-Moves Method.set_xattr ok = texts _ (λ a. texts _ (λ b. texts _ (λ c.
        naturals _ _ (λ d. signeds _ _ (λ e.
          reply-Moves (code_reply P fuel junk) (Attributes.set_xattr P a b c d (pattern_of e))
            (λ v. T.fs v _))))))
    dispatch_to-Moves Method.get_xattr ok = texts _ (λ a. texts _ (λ b. texts _ (λ c.
        naturals _ _ (λ d.
          reply-Moves (xattr_reply P fuel junk) (XAttrs.get_xattr P a b c d) (λ v. stays v)))))
    dispatch_to-Moves Method.list_xattr ok = texts _ (λ a. texts _ (λ b.
        naturals _ _
          (λ c. reply-Moves (xattr_reply P fuel junk) (XAttrs.list_xattr P a b c) (λ v. stays v))))
    dispatch_to-Moves Method.remove_xattr ok = texts _ (λ a.
        texts _ (λ b.
          reply-Moves (code_reply P fuel junk) (Attributes.remove_xattr P a b) (λ v. T.fs v _)))
    dispatch_to-Moves Method.read_dir ok = texts _ (λ a. signeds _ _ (λ b. signeds _ _ (λ c.
        reply-Moves (dir_reply P fuel junk) (list_dir P fuel junk a b c) (list_dir-Moves a b c))))
    dispatch_to-Moves Method.fsync_dir ok = texts _ (λ a.
        signeds _ _
          (λ b. reply-Moves (code_reply P fuel junk) (XAttrs.fsync_dir P a b) (λ v. T.fs v _)))
    dispatch_to-Moves Method.access ok = texts _ (λ a. signeds _ _ (λ b.
        reply-Moves (code_reply P fuel junk) (Attributes.access P a (pattern_of b)) (λ v. stays v)))
    dispatch_to-Moves Method.create ok = texts _ (λ a. signeds _ _ (λ b. naturals _ _ (λ c.
        reply-Moves (code_reply P fuel junk) (Files.create P a (pattern_of b) c)
          (T.create ok a (pattern_of b) c))))
    dispatch_to-Moves Method.ftruncate ok = texts _ (λ a. signeds _ _ (λ b. signeds _ _ (λ c.
        reply-Moves (code_reply P fuel junk) (Files.ftruncate P a (pattern_of b) c)
          (λ v. T.fs v _))))
    dispatch_to-Moves Method.fget_attr ok = texts _ (λ a. signeds _ _ (λ b.
        reply-Moves (fattr_reply P fuel junk) (Attributes.fget_attr P a (pattern_of b))
          (λ v. stays v)))
    dispatch_to-Moves Method.lock ok = texts _ (λ a. signeds _ _ (λ b. signeds _ _ (λ c.
        reply-Moves (code_reply P fuel junk) (Attributes.lock P a (pattern_of b) c)
          (λ v. T.fs v _))))
    dispatch_to-Moves Method.utimens ok = texts _ (λ a. time_arg-Moves P After stays _ (λ b.
        time_arg-Moves P After stays _
          (λ c. reply-Moves (code_reply P fuel junk) (Attributes.utimens P a b c) (λ v. T.fs v _))))
    dispatch_to-Moves Method.file_prev_read ok = texts _ (λ a.
        reply-Moves (code_reply P fuel junk) (Files.file_prev_read P a) (file_prev_read-Moves a))
    dispatch_to-Moves Method.file_flush ok =
        texts _
          (λ a. reply-Moves (code_reply P fuel junk) (Files.file_flush P a) (T.file_flush ok a))
    dispatch_to-Moves Method.local_file_export ok =
        reply-Moves (code_reply P fuel junk) (Files.local_file_export P) (T.local_file_export ok)

    -- A relation that holds across those handlers and across a change of the storages alone holds
    -- across every request of those methods.
    pub dispatch-Moves : (req : Request) → Allowed req.method → Moves P R (dispatch P fuel junk req)
    unfolding dispatch
    dispatch-Moves req ok v = (dispatch_to-Moves req.method ok).at req.params v
