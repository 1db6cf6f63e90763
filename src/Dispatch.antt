-- ===== src/Dispatch.antt =====
-- BurstBuffer::dispatch in src/cbb/burst_buffer.cc: the parameters that each method is given. The
-- conversion of msgpack fails when there are too few, or one of another kind; the caller then gets
-- an error.
pub mod Handlers
pub mod Refusal
pub mod Arguments
pub mod Codes
pub mod Frame
use cbb.Prelude.{Bool, true, false, ◌&&◌, List, [], ◌∷◌, map}
use cbb.Client.{Method, Param, text, num, raw, time, Request}

-- std::string, an integer type, raw_ref, TimeSpec
pub data Kind : Type 0 where
  string integer raw_data time_spec : Kind

abbrev pub kind : Param → Kind
kind (text t) = string
kind (num n) = integer
kind (raw r) = raw_data
kind (time t) = time_spec

abbrev pub same_kind : Kind → Kind → Bool
same_kind string string = true
same_kind integer integer = true
same_kind raw_data raw_data = true
same_kind time_spec time_spec = true
same_kind _ _ = false

-- The tuple type of each branch.
unfoldable pub expected : Method → List Kind
expected Method.get_attr = string ∷ []
expected Method.read_link = string ∷ integer ∷ []
expected Method.mk_dir = string ∷ integer ∷ []
expected Method.unlink = string ∷ []
expected Method.rm_dir = string ∷ []
expected Method.symlink = string ∷ string ∷ []
expected Method.rename = string ∷ string ∷ []
expected Method.link = string ∷ string ∷ []
expected Method.chmod = string ∷ integer ∷ []
expected Method.chown = string ∷ integer ∷ integer ∷ []
expected Method.truncate = string ∷ integer ∷ []
expected Method.open_file = string ∷ integer ∷ []
expected Method.read = string ∷ integer ∷ integer ∷ integer ∷ []
expected Method.write = string ∷ integer ∷ integer ∷ raw_data ∷ []
expected Method.stat_fs = string ∷ []
expected Method.flush = string ∷ integer ∷ []
expected Method.release = string ∷ integer ∷ []
expected Method.fsync = string ∷ integer ∷ integer ∷ []
expected Method.set_xattr = string ∷ string ∷ string ∷ integer ∷ integer ∷ []
expected Method.get_xattr = string ∷ string ∷ string ∷ integer ∷ []
expected Method.list_xattr = string ∷ string ∷ integer ∷ []
expected Method.remove_xattr = string ∷ string ∷ []
expected Method.read_dir = string ∷ integer ∷ integer ∷ []
expected Method.fsync_dir = string ∷ integer ∷ []
expected Method.access = string ∷ integer ∷ []
expected Method.create = string ∷ integer ∷ integer ∷ []
expected Method.ftruncate = string ∷ integer ∷ integer ∷ []
expected Method.fget_attr = string ∷ integer ∷ []
expected Method.lock = string ∷ integer ∷ integer ∷ []
expected Method.utimens = string ∷ time_spec ∷ time_spec ∷ []
expected Method.file_prev_read = string ∷ []
expected Method.file_flush = string ∷ []
expected Method.local_file_export = []

-- The conversion to a tuple: as many parameters at least, each of its kind.
unfoldable pub converts : List Kind → List Param → Bool
converts [] params = true
converts (k ∷ kinds) [] = false
converts (k ∷ kinds) (p ∷ params) = same_kind k (kind p) && converts kinds params

-- Whether dispatch reaches the handler.
unfoldable pub accepts : Request → Bool
unfolding expected converts
accepts req = converts (expected req.method) req.params
