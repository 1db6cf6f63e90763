-- ===== src/Dispatch/Codes.antt =====
-- The names of the methods on the wire, CODE in src/common/common.h, and the chain of comparisons of
-- BurstBuffer::dispatch in src/cbb/burst_buffer.cc.
use cbb.Prelude.{
  ap, sym, ◌≡◌, ◌≢◌, ◌⊎◌, inl, inr, ◌∙◌, ℕ, List, [], ◌∷◌, Option, none, some, if◌then◌else◌, arith,
  refl, Option-cases,
}
use cbb.Text.{Bytes, eqb}
use cbb.Text.Find.{eqb_iff}
use cbb.Common.{bytes}
use cbb.Posix.{Posix}
use cbb.Server.{Handler, Server, error_reply}
use cbb.Client.{Method, Param, Response}
use cbb.Dispatch.Handlers.{Junk, dispatch, dispatch_to}

-- CODE(code)
unfoldable pub code : Method → Bytes
code Method.get_attr = bytes "kGetAttr"
code Method.read_link = bytes "kReadLink"
code Method.mk_dir = bytes "kMkDir"
code Method.unlink = bytes "kUnlink"
code Method.rm_dir = bytes "kRmDir"
code Method.symlink = bytes "kSymlink"
code Method.rename = bytes "kRename"
code Method.link = bytes "kLink"
code Method.chmod = bytes "kChmod"
code Method.chown = bytes "kChown"
code Method.truncate = bytes "kTruncate"
code Method.open_file = bytes "kOpen"
code Method.read = bytes "kRead"
code Method.write = bytes "kWrite"
code Method.stat_fs = bytes "kStatFs"
code Method.flush = bytes "kFlush"
code Method.release = bytes "kRelease"
code Method.fsync = bytes "kFSync"
code Method.read_dir = bytes "kReadDir"
code Method.fsync_dir = bytes "kFSyncDir"
code Method.set_xattr = bytes "kSetXAttr"
code Method.get_xattr = bytes "kGetXAttr"
code Method.list_xattr = bytes "kListXAttr"
code Method.remove_xattr = bytes "kRemoveXAttr"
code Method.access = bytes "kAccess"
code Method.create = bytes "kCreate"
code Method.ftruncate = bytes "kFTruncate"
code Method.fget_attr = bytes "kFGetAttr"
code Method.lock = bytes "kLock"
code Method.utimens = bytes "kUtimens"
code Method.file_prev_read = bytes "kFilePrevRead"
code Method.file_flush = bytes "kFileFlush"
code Method.local_file_export = bytes "kLocalFileExport"

-- The methods in the order of the chain.
abbrev pub chain : List Method
chain =
    Method.get_attr ∷ Method.read_link ∷ Method.mk_dir ∷ Method.unlink ∷ Method.rm_dir
    ∷ Method.symlink ∷ Method.rename ∷ Method.link ∷ Method.chmod ∷ Method.chown ∷ Method.truncate
    ∷ Method.open_file ∷ Method.read ∷ Method.write ∷ Method.stat_fs ∷ Method.flush ∷ Method.release
    ∷ Method.fsync ∷ Method.read_dir ∷ Method.fsync_dir ∷ Method.set_xattr ∷ Method.get_xattr
    ∷ Method.list_xattr ∷ Method.remove_xattr ∷ Method.access ∷ Method.create ∷ Method.ftruncate
    ∷ Method.fget_attr ∷ Method.lock ∷ Method.utimens ∷ Method.file_prev_read ∷ Method.file_flush
    ∷ Method.local_file_export ∷ []

-- The first branch of a chain for a name.
unfoldable pub find_method : Bytes → List Method → Option Method
find_method name [] = none
find_method name (m ∷ ms) =
    let rest = find_method name ms in if eqb name (code m) then some m else rest

-- dispatch of a name: one of no branch is NO_METHOD_ERROR.
unfoldable pub dispatch_code : (P : Posix) → ℕ → Junk → Bytes → List Param → Handler P Response
unfolding find_method dispatch_to
dispatch_code P fuel junk name params v = elim (find_method name chain) [
  | none ↦ (error_reply, v)
  | some m ↦ dispatch_to P fuel junk m params v
]

-- Each method is found by its own name.
find_method-code : (m : Method) → find_method (code m) chain ≡ some m
unfolding find_method code eqb
find_method-code Method.get_attr = refl
find_method-code m = refl

find_method_name :
    (name : Bytes) (ms : List Method) (m : Method) → find_method name ms ≡ some m → name ≡ code m
unfolding find_method
find_method_name name [] m h = ground arith
find_method_name name (n ∷ ms) m h =
    ground (arith, eqb_iff name (code n), find_method_name name ms m)

none≢some : (m : Method) → none ≢ some m
none≢some m e = cc

module _ (P : Posix) (fuel : ℕ) (junk : Junk) where
  -- A request under a name on the wire is what dispatch makes of the method that has this name, if
  -- one has it; under any other name it is refused with an error, and changes nothing.
  pub dispatch_code_cases :
      (name : Bytes) (params : List Param) (v : Server P)
      → ((m : Method) × (name ≡ code m)
          × (dispatch_code P fuel junk name params v
              ≡ dispatch P fuel junk (record { method = m; params = params }) v))
        ⊎ (((m : Method) → name ≢ code m)
            × (dispatch_code P fuel junk name params v ≡ (error_reply, v)))
  unfolding dispatch_code dispatch
  dispatch_code_cases name params v = elim (Option-cases (find_method name chain)) [
    | inl e ↦ inr (
      λ m same.
          absurd (none≢some m (sym e ∙ ap (λ n. find_method n chain) same ∙ find_method-code m)),
      rw (e, dispatch_code),
    )
    | inr (m, e) ↦ inl (m, find_method_name name chain m e, rw (e, dispatch_code))
  ]
