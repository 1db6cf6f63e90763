-- ===== src/Client/Attributes.antt =====
-- The client's operations on attributes in src/cbb/burst_buffer_client.cc.
use cbb.Prelude.{ℕ, ℤ, pos, [], ◌∷◌}
use cbb.Text.{Bytes}
use cbb.Common.{StatVfs, Error, cbb_success, FileStat, TimeSpec}
use cbb.Client.{Method, num, text, time, Network, M, pure, ◌>>=◌, call_at, code_at}

module _ (N : Network) where
  unfoldable pub chmod : Bytes → ℕ → M N Error
  unfolding code_at
  chmod path mode =
      code_at N path (record { method = Method.chmod; params = text path ∷ num (pos mode) ∷ [] })

  unfoldable pub chown : Bytes → ℕ → ℕ → M N Error
  unfolding code_at
  chown path uid gid =
      code_at N path
        (record { method = Method.chown; params = text path ∷ num (pos uid) ∷ num (pos gid) ∷ [] })

  unfoldable pub truncate : Bytes → ℤ → M N Error
  unfolding code_at
  truncate path size =
      code_at N path (record { method = Method.truncate; params = text path ∷ num size ∷ [] })

  unfoldable pub access : Bytes → ℤ → M N Error
  unfolding code_at
  access path mode =
      code_at N path (record { method = Method.access; params = text path ∷ num mode ∷ [] })

  unfoldable pub utimens : Bytes → TimeSpec → TimeSpec → M N Error
  unfolding code_at
  utimens path time0 time1 =
      code_at N path
        (record { method = Method.utimens; params = text path ∷ time time0 ∷ time time1 ∷ [] })

  -- GetXAttr and ListXAttr: always success, with the text of the reply.
  unfoldable pub get_xattr : Bytes → Bytes → Bytes → ℕ → M N (Error × Bytes)
  unfolding call_at
  get_xattr path name value size = do
    r ← call_at N path (record {
      method = Method.get_xattr;
      params = text path ∷ text name ∷ text value ∷ num (pos size) ∷ [];
    })
    pure (cbb_success, r.data_text)

  unfoldable pub list_xattr : Bytes → Bytes → ℕ → M N (Error × Bytes)
  unfolding call_at
  list_xattr path list size = do
    r ← call_at N path (record {
      method = Method.list_xattr;
      params = text path ∷ text list ∷ num (pos size) ∷ [];
    })
    pure (cbb_success, r.data_text)

  unfoldable pub remove_xattr : Bytes → Bytes → M N Error
  unfolding code_at
  remove_xattr path name =
      code_at N path (record { method = Method.remove_xattr; params = text path ∷ text name ∷ [] })

  -- FGetAttr: the error and the attributes.
  unfoldable pub fget_attr : Bytes → ℕ → M N (Error × FileStat)
  unfolding call_at
  fget_attr path fd_org = do
    r ←
        call_at N path
          (record { method = Method.fget_attr; params = text path ∷ num (pos fd_org) ∷ [] })
    pure (r.code, r.file_stat)

  -- StatFs: the error and the values.
  unfoldable pub stat_fs : Bytes → M N (Error × StatVfs)
  unfolding call_at
  stat_fs path = do
    r ← call_at N path (record { method = Method.stat_fs; params = text path ∷ [] })
    pure (r.code, r.stat_vfs)
