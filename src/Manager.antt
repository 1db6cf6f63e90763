-- ===== src/Manager.antt =====
-- src/cbb/meta_data_manager.h and .cc: the table of open descriptors and the operations on the two
-- storages. Descriptors are not negative; the client only sends back what `open` gave it.
pub mod Paths
pub mod Table
pub mod Tight
use cbb.Common.OneLine.{read_one_line}
use cbb.Prelude.{
  quotient, negsuc, ℕ, ◌+◌, ◌/◌, Bool, true, false, not, ◌&&◌, ℤ, pos, neg, List, [], ◌∷◌, ◌++◌,
  Option, none, some, if◌then◌else◌, ◌==◌, leb, length, drop,
}
use cbb.Text.{Bytes, contains}
use cbb.Common.{
  to_int32, Error, cbb_success, SysResult, ok, fail, raw_result, errno_to_cbb_error, FileStat,
  TimeSpec, is_virtual_symlink, is_virtual_link,
}
use cbb.StdMap.{Map, lookup, assign, erase, set_insert, set_erase, is_empty}
use cbb.Posix.{Posix, TimeVal}
use cbb.FileControl
use Prim.Native.Nat.{bit_or}

pub record Manager : Type 0 where
  pub table : Map (List ℕ)
  pub local_storage_root_path : Bytes
  pub secondary_storage_root_path : Bytes

-- slash = path.substr(0, 1) == "/" ? "" : "/"
abbrev pub slash : Bytes → Bytes
slash [] = b'/' ∷ []
slash (c ∷ path) = if c == b'/' then [] else b'/' ∷ []

unfoldable pub local_path : Manager → Bytes → Bytes
local_path m path = m.local_storage_root_path ++ (slash path ++ path)

unfoldable pub secondary_path : Manager → Bytes → Bytes
secondary_path m path = m.secondary_storage_root_path ++ (slash path ++ path)

unfoldable pub remove_storage_path : Manager → Bytes → Bytes
unfolding local_path secondary_path contains
remove_storage_path m path =
    if contains (local_path m []) path
    then drop (length (local_path m (b'/' ∷ []))) path
    else if contains (secondary_path m []) path
    then drop (length (secondary_path m (b'/' ∷ []))) path
    else path

-- The descriptors that the table holds for a path; none for a path that it lacks.
abbrev pub descriptors : Map (List ℕ) → Bytes → List ℕ
descriptors table path = elim (lookup path table) [ none ↦ [] | some fds ↦ fds ]

unfoldable pub is_buffered : Manager → Bytes → Bool
is_buffered m path = elim (lookup path m.table) [ none ↦ false | some fds ↦ true ]

-- Register: table_[path].insert(fd)
unfoldable pub register : Bytes → ℕ → Manager → Manager
unfolding set_insert assign lookup
register path fd m = record m {
  table = assign path (set_insert fd (descriptors m.table path)) m.table;
}

-- Unregister(path, fd)
unfoldable pub unregister_fd : Bytes → ℕ → Manager → Manager
unfolding set_erase assign erase lookup
unregister_fd path fd m = elim (lookup path m.table) [
  | none ↦ m
  | some fds ↦
      let rest = set_erase fd fds in
      if is_empty rest
      then record m { table = erase path m.table }
      else record m { table = assign path rest m.table }
]

module _ (P : Posix) where
  open P use {State}

  unfoldable pub exists_on_local : Manager → State → Bytes → Bool
  exists_on_local m s path = P.exists s (local_path m path)

  unfoldable pub exists_on_secondary : Manager → State → Bytes → Bool
  exists_on_secondary m s path = P.exists s (secondary_path m path)

  unfoldable pub target_path : Manager → State → Bytes → Bytes
  unfolding exists_on_local
  target_path m s path =
      if exists_on_local m s path then local_path m path else secondary_path m path

  -- The loop of Unregister(path) that closes each descriptor.
  unfoldable pub close_all : List ℕ → State → State
  unfolding FileControl.close
  close_all [] s = s
  close_all (fd ∷ fds) s = close_all fds (FileControl.close P fd s).1

  -- Unregister(path)
  unfoldable pub unregister : Bytes → Manager → State → Manager × State
  unfolding close_all erase lookup
  unregister path m s = elim (lookup path m.table) [
    | none ↦ (m, s)
    | some fds ↦ (record m { table = erase path m.table }, close_all fds s)
  ]

  -- GetFileStat: the error, the attributes if they were stored, and the link path.
  unfoldable pub get_file_stat : Manager → State → Bytes → Error × Option FileStat × Bytes
  unfolding target_path is_virtual_symlink is_virtual_link read_one_line
  get_file_stat m s path =
      let tpath = target_path m s path in
      let line = read_one_line P s tpath in
      if not (P.exists s tpath) then (neg 2, none, []) else elim (P.lstat s tpath) [
        | fail e ↦ (negsuc e, none, [])
        | ok st ↦
            if is_virtual_symlink tpath
            then (if is_empty line
                then (cbb_success, some st, [])
                else (cbb_success, some (record st { st_mode = bit_or st.st_mode 0o120000 }), line))
            else if is_virtual_link tpath
            then (cbb_success, some st, line)
            else (cbb_success, some st, [])
      ]

  -- GetFileStatFD
  unfoldable pub get_file_stat_fd : State → ℕ → Error × Option FileStat
  get_file_stat_fd s fd = elim (P.fstat s fd) [
    | fail e ↦ (negsuc e, none)
    | ok st ↦ (cbb_success, some st)
  ]

  -- Rename: the local file decides the result.
  unfoldable pub rename : Bytes → Bytes → Manager → State → Error × Manager × State
  unfolding unregister exists_on_local exists_on_secondary
  rename old_path new_path m s =
      let second = λ (error : Error) (m : Manager) (s : State).
        let t =
          (if exists_on_secondary m s old_path
            then (P.rename (secondary_path m old_path) (secondary_path m new_path) s).1
            else s) in
        let done : Error × Manager × State = (error, m, t) in done in
      if exists_on_local m s old_path
      then (let (r, s') = P.rename (local_path m old_path) (local_path m new_path) s in
          let (m', s'') = unregister old_path m s' in second (errno_to_cbb_error r) m' s'')
      else second cbb_success m s

  -- A call on the local file and then on the secondary one, each where it exists: the local call
  -- decides the result. The common body of Chmod and Chown.
  abbrev on_both : (Bytes → State → SysResult ℕ × State) → Bytes → Manager → State → Error × State
  on_both call path m s =
      let (error, s') =
        (if exists_on_local m s path
          then (let (r, t) = call (local_path m path) s in
              let done : Error × State = (errno_to_cbb_error r, t) in done)
          else (cbb_success, s)) in
      if exists_on_secondary m s' path
      then (error, (call (secondary_path m path) s').1)
      else (error, s')

  unfoldable pub chmod : Bytes → ℕ → Manager → State → Error × State
  unfolding exists_on_local exists_on_secondary
  chmod path mode m s = on_both (λ p. P.chmod p mode) path m s

  unfoldable pub chown : Bytes → ℕ → ℕ → Manager → State → Error × State
  unfolding exists_on_local exists_on_secondary
  chown path uid gid m s = on_both (λ p. P.lchown p uid gid) path m s

  unfoldable pub truncate : Bytes → ℤ → Manager → State → Error × State
  unfolding target_path
  truncate path size m s =
      let (r, s') = P.truncate (target_path m s path) size s in (errno_to_cbb_error r, s')

  unfoldable pub ftruncate : ℕ → ℤ → State → Error × State
  ftruncate fd size s = let (r, s') = P.ftruncate fd size s in (errno_to_cbb_error r, s')

  unfoldable pub access : Bytes → ℕ → Manager → State → Error
  unfolding target_path
  access path mode m s = errno_to_cbb_error (P.access s (target_path m s path) mode)

  -- Utimens: nanoseconds are cut to microseconds.
  unfoldable pub utimens : Bytes → TimeSpec → TimeSpec → Manager → State → Error × State
  unfolding target_path
  utimens path time0 time1 m s =
      let micro = λ (t : TimeSpec).
        let v : TimeVal = record { tv_sec = t.tv_sec; tv_usec = quotient t.tv_nsec 1000 } in v in
      let (r, s') = P.utimes (target_path m s path) (micro time0) (micro time1) s in
      (errno_to_cbb_error r, s')

  -- Create: -errno, or the descriptor, which is registered.
  unfoldable pub create : Bytes → ℕ → ℕ → Manager → State → Error × Manager × State
  unfolding register FileControl.create
  create path flags mode m s =
      let (r, s') = FileControl.create P (local_path m path) flags mode s in
      elim r [ fail e ↦ (negsuc e, m, s') | ok fd ↦ (pos fd, register path fd m, s') ]

  -- CopySecondaryToLocal: 0 whether it copied or not, `none` when last_write_time throws.
  unfoldable pub copy_secondary_to_local : Bytes → Manager → State → Option Error × State
  copy_secondary_to_local path m s =
      let source = secondary_path m path in
      let destination = local_path m path in
      let copied = (P.copy_file_overwrite source destination s).1 in
      if P.exists s source
      then (if P.exists s destination
          then elim (P.last_write_time s source) [
            | fail e ↦ (none, s)
            | ok last_update_src ↦ elim (P.last_write_time s destination) [
              | fail e ↦ (none, s)
              | ok last_update_dst ↦
                  if leb last_update_src last_update_dst
                  then (some cbb_success, s)
                  else (some cbb_success, copied)
            ]
          ]
          else (some cbb_success, copied))
      else (some cbb_success, s)

  -- Open once the file is in place.
  unfoldable pub open_local : Bytes → ℕ → Manager → State → Option Error × Manager × State
  unfolding register FileControl.open_file
  open_local path flags m s =
      let (r, s') = FileControl.open_file P (local_path m path) flags s in
      elim r [ fail e ↦ (some (negsuc e), m, s') | ok fd ↦ (some (pos fd), register path fd m, s') ]

  -- Open: a file that is only on the secondary storage is copied first; `none` is an exception.
  unfoldable pub open_file : Bytes → ℕ → Manager → State → Option Error × Manager × State
  unfolding exists_on_local exists_on_secondary
  open_file path flags m s =
      let fresh = exists_on_secondary m s path && not (exists_on_local m s path) in
      let (r, s') = copy_secondary_to_local path m s in
      if fresh
      then elim r [ none ↦ (none, m, s') | some e ↦ open_local path flags m s' ]
      else open_local path flags m s

  -- Read and Write: the size of the file's own operation, which is returned as an int.
  unfoldable pub read : ℕ → ℕ → ℤ → State → Error × Bytes
  unfolding FileControl.read to_int32
  read fd size offset s =
      let (ssize, bs) = FileControl.read P fd size offset s in (to_int32 ssize, bs)

  unfoldable pub write : ℕ → Bytes → ℤ → State → Error × State
  unfolding FileControl.write to_int32
  write fd bs offset s =
      let (ssize, s') = FileControl.write P fd bs offset s in (to_int32 ssize, s')

  unfoldable pub fsync : ℕ → Bool → State → ℤ × State
  unfolding FileControl.fsync
  fsync fd is_data s = FileControl.fsync P fd is_data s

  unfoldable pub flush : ℕ → State → ℤ × State
  unfolding FileControl.flush
  flush fd s = FileControl.flush P fd s

  -- Close: the descriptor leaves the table whatever the call answers.
  unfoldable pub close : Bytes → ℕ → Manager → State → ℤ × Manager × State
  unfolding FileControl.close
  close path fd m s = let (ret, s') = FileControl.close P fd s in (ret, unregister_fd path fd m, s')

  unfoldable pub file_flush : Bytes → Manager → State → Error × Manager × State
  unfolding unregister
  file_flush path m s = let (m', s') = unregister path m s in (cbb_success, m', s')
