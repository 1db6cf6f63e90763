-- ===== src/Client/Names.antt =====
-- The client's operations on names in src/cbb/burst_buffer_client.cc. A link to a file is a virtual
-- one: a file at another path, on the server of that path. `junk` is an uninitialised `Error`.
use cbb.Prelude.{ℕ, Bool, true, false, not, ◌&&◌, ℤ, pos, [], ◌∷◌, if◌then◌else◌, is_neg}
use cbb.Text.{Bytes}
use cbb.Common.{Error, FileStat, create_virtual_symlink, create_virtual_link}
use cbb.StdMap.{is_empty}
use cbb.Client.{
  Method, num, text, Request, Network, M, pure, ◌>>=◌, call_at, code_at, call_all, s_isdir,
}
use Prim.Native.Nat.{bit_or}

-- What GetAttrEx leaves: the error, the attributes and the link path.
pub record Attr : Type 0 where
  pub error : Error
  pub file_stat : FileStat
  pub link_path : Bytes

module _ (N : Network) where
  -- GetAttrExInternal
  unfoldable pub get_attr_ex_internal : Bytes → M N Attr
  unfolding call_at
  get_attr_ex_internal path = do
    r ← call_at N path (record { method = Method.get_attr; params = text path ∷ [] })
    pure (record { error = r.code; file_stat = r.file_stat; link_path = r.data_text })

  -- st_mode |= S_IFLNK
  abbrev as_link : Attr → Attr
  as_link a =
      let st = a.file_stat in
      record a { file_stat = record st { st_mode = bit_or st.st_mode 0o120000 } }

  -- GetAttrEx once there is no virtual symlink: the virtual link's target, or the path itself.
  unfoldable pub get_attr_of_link : Bytes → M N Attr
  unfolding get_attr_ex_internal create_virtual_link
  get_attr_of_link path = do
    a ← get_attr_ex_internal (create_virtual_link path)
    if is_neg a.error
        then get_attr_ex_internal path
        else if not (is_empty a.link_path)
        then (do b ← get_attr_ex_internal a.link_path; pure (record b { error = a.error }))
        else pure a

  -- GetAttrEx
  unfoldable pub get_attr_ex : Bytes → M N Attr
  unfolding get_attr_of_link create_virtual_symlink
  get_attr_ex path = do
    a ← get_attr_ex_internal (create_virtual_symlink path)
    if is_neg a.error
        then get_attr_of_link path
        else pure (if not (is_empty a.link_path) then as_link a else a)

  -- GetAttr
  unfoldable pub get_attr : Bytes → M N Attr
  unfolding get_attr_ex
  get_attr path = get_attr_ex path

  -- ReadLink: the error and what is in the buffer.
  unfoldable pub read_link : Bytes → ℕ → M N (Error × Bytes)
  unfolding get_attr_ex_internal create_virtual_symlink create_virtual_link call_at
  read_link path size = do
    a ← get_attr_ex_internal (create_virtual_symlink path)
    b ← (if is_neg a.error then get_attr_ex_internal (create_virtual_link path) else pure a)
    if is_neg b.error
        then (do
          r ←
              call_at N path
                (record { method = Method.read_link; params = text path ∷ num (pos size) ∷ [] })
          pure ((if is_neg r.code then r.code else pos 0), r.data_text))
        else pure (pos 0, b.link_path)

  unfoldable pub mk_dir : Bytes → ℕ → Error → M N Error
  unfolding call_all
  mk_dir path mode junk =
      call_all N (record { method = Method.mk_dir; params = text path ∷ num (pos mode) ∷ [] }) junk

  unfoldable pub unlink_internal : Bytes → Bool → Error → M N Error
  unfolding call_all code_at
  unlink_internal path is_all_server junk =
      let req : Request = record { method = Method.unlink; params = text path ∷ [] } in
      if is_all_server then call_all N req junk else code_at N path req

  -- Unlink: the virtual symlink or link of the path if there is one, else the path on all servers.
  unfoldable pub unlink : Bytes → Error → M N Error
  unfolding get_attr_ex_internal unlink_internal create_virtual_symlink create_virtual_link
  unlink path junk = do
    a ← get_attr_ex_internal (create_virtual_symlink path)
    if is_neg a.error
        then (do
          b ← get_attr_ex_internal (create_virtual_link path)
          if is_neg b.error
              then unlink_internal path true junk
              else unlink_internal (create_virtual_link path) false junk)
        else unlink_internal (create_virtual_symlink path) false junk

  unfoldable pub rm_dir : Bytes → Error → M N Error
  unfolding call_all
  rm_dir path junk = call_all N (record { method = Method.rm_dir; params = text path ∷ [] }) junk

  -- The branch of Symlink, Rename, Link and SetXAttr for a path that is no directory. Its result is
  -- in an inner variable `error`: what is returned is the outer one, of GetAttrEx.
  abbrev shadowed : Bytes → Request → Error → M N Error
  shadowed at req outer = do r ← call_at N at req; pure outer

  unfoldable pub symlink : Bytes → Bytes → M N Error
  unfolding get_attr_ex call_all call_at create_virtual_symlink
  symlink path link = do
    a ← get_attr_ex path
    if not (is_neg a.error) && s_isdir a.file_stat.st_mode
        then call_all N (record { method = Method.symlink; params = text path ∷ text link ∷ [] })
            a.error
        else shadowed (create_virtual_symlink link)
            (record {
              method = Method.symlink;
              params = text path ∷ text (create_virtual_symlink link) ∷ [];
            })
            a.error

  unfoldable pub rename : Bytes → Bytes → M N Error
  unfolding get_attr_ex call_all call_at
  rename old_path new_path = do
    a ← get_attr_ex old_path
    if not (is_neg a.error) && s_isdir a.file_stat.st_mode
        then call_all N
            (record { method = Method.rename; params = text old_path ∷ text new_path ∷ [] }) a.error
        else shadowed old_path
            (record { method = Method.rename; params = text old_path ∷ text new_path ∷ [] }) a.error

  -- Link tests the mode whether or not GetAttrEx succeeded.
  unfoldable pub link : Bytes → Bytes → M N Error
  unfolding get_attr_ex call_all call_at create_virtual_link
  link path newpath = do
    a ← get_attr_ex path
    if s_isdir a.file_stat.st_mode
        then call_all N (record { method = Method.link; params = text path ∷ text newpath ∷ [] })
            a.error
        else shadowed (create_virtual_link newpath)
            (record {
              method = Method.link;
              params = text path ∷ text (create_virtual_link newpath) ∷ [];
            })
            a.error

  unfoldable pub set_xattr : Bytes → Bytes → Bytes → ℕ → ℤ → M N Error
  unfolding get_attr_ex call_all call_at
  set_xattr path name value size flags = do
    a ← get_attr_ex path
    let req : Request = record {
      method = Method.set_xattr;
      params = text path ∷ text name ∷ text value ∷ num (pos size) ∷ num flags ∷ [];
    }
    if not (is_neg a.error) && s_isdir a.file_stat.st_mode
        then call_all N req a.error
        else shadowed path req a.error
