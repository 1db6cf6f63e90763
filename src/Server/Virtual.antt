-- ===== src/Server/Virtual.antt =====
-- Virtual symlinks in src/cbb/burst_buffer.cc: what GetAttr says of one that Symlink has made.
use cbb.Prelude.{
  none, neg, false, ap, ◌∙◌, sym, ◌≡◌, ◌≢◌, refl, true, pos, [], ◌∷◌, ◌++◌, some, Option, arith,
}
use Prim.Native.Nat.{bit_or}
use cbb.Text.{Bytes, find, contains}
use cbb.Text.Find.{Lacks}
use cbb.Common.{Error, FileStat, ok, is_virtual_symlink, virtual_symlink_ext}
use cbb.Common.OneLine.{read_one_line, write_one_line, get_line-append}
use cbb.Posix.{Posix}
use cbb.Manager
use cbb.Manager.{local_path, secondary_path, slash}
use cbb.Server.{Reply, Server, result}
use cbb.Server.Names.{symlink}
use cbb.Server.Attributes.{get_attr}

contains-append : (ext s t : Bytes) → contains ext t ≡ true → contains ext (s ++ t) ≡ true
unfolding contains find
contains-append ext [] t h = h
contains-append ext (c ∷ s) t h = ground (arith, contains-append ext s t h)

is_virtual_symlink-local_path :
    (m : Manager.Manager) (link : Bytes)
    → is_virtual_symlink link ≡ true
    → is_virtual_symlink (local_path m link) ≡ true
unfolding is_virtual_symlink local_path
is_virtual_symlink-local_path m link h =
    contains-append virtual_symlink_ext m.local_storage_root_path (slash link ++ link)
      (contains-append virtual_symlink_ext (slash link) link h)

module _ (P : Posix) where
  read-write_one_line :
      (path text : Bytes) (s : P.State)
      → Lacks 10 text
      → P.read_text s path ≡ some (text ++ 10 ∷ [])
      → read_one_line P s path ≡ text
  unfolding read_one_line
  read-write_one_line path text s lacks wrote =
      rw (wrote, read_one_line) (get_line-append text [] lacks)

  symlink_virtual :
      (path link : Bytes) (v : Server P)
      → is_virtual_symlink link ≡ true
      → symlink P path link v ≡ (
        result (pos 0),
        record v { fs = write_one_line P (local_path v.md_manager link) path v.fs },
      )
  unfolding symlink
  symlink_virtual path link v h = ground (arith, h)

  get_file_stat_virtual :
      (m : Manager.Manager) (s : P.State) (link line : Bytes) (st : FileStat)
      → P.exists s (local_path m link) ≡ true
      → P.lstat s (local_path m link) ≡ ok st
      → is_virtual_symlink link ≡ true
      → read_one_line P s (local_path m link) ≡ line
      → line ≢ []
      → Manager.get_file_stat P m s link
        ≡ (pos 0, some (record st { st_mode = bit_or st.st_mode 0o120000 }), line)
  unfolding Manager.get_file_stat
  get_file_stat_virtual m s link [] st x e h l ne = absurd (ne refl)
  get_file_stat_virtual m s link (c ∷ line) st x e h l ne =
      ground (arith, x, e, l, is_virtual_symlink-local_path m link h)

  -- Symlink under a virtual name answers success. When its write has made the file, with the path and an
  -- end of line in it, GetAttr of that name then answers the attributes of the file with the bits of
  -- a symbolic link, and as its target the path that was linked, for a path that is not empty and has
  -- no end of line.
  pub get_attr-symlink :
      (path link : Bytes) (v : Server P) (st : FileStat)
      → is_virtual_symlink link ≡ true
      → Lacks 10 path
      → path ≢ []
      → P.exists
          (write_one_line P (local_path v.md_manager link) path v.fs)
          (local_path v.md_manager link)
        ≡ true
      → P.read_text
          (write_one_line P (local_path v.md_manager link) path v.fs)
          (local_path v.md_manager link)
        ≡ some (path ++ 10 ∷ [])
      → P.lstat
          (write_one_line P (local_path v.md_manager link) path v.fs)
          (local_path v.md_manager link)
        ≡ ok st
      → let w = (symlink P path link v).1 in
        ((symlink P path link v).0 ≡ result (pos 0))
        × (get_attr P link w
            ≡ (result (pos 0, some (record st { st_mode = bit_or st.st_mode 0o120000 }), path), w))
  unfolding get_attr
  get_attr-symlink path link v st virtual lacks ne there wrote e =
      let m = v.md_manager in
      let file = local_path m link in
      let s = write_one_line P file path v.fs in
      let shown =
        get_file_stat_virtual m s link path st there e virtual
          (read-write_one_line file path s lacks wrote) ne in
      let done = symlink_virtual path link v virtual in
      let w : Server P = record v { fs = s } in
      let answer = λ (u : Server P).
        let r : Reply (Error × Option FileStat × Bytes) × Server P =
          (result (pos 0, some (record st { st_mode = bit_or st.st_mode 0o120000 }), path), u) in
        r in
      (
        ap (λ r. r.0) done,
        ap (λ r. get_attr P link r.1) done
            ∙ ap (λ r. (result r, w)) shown
            ∙ ap (λ r. answer r.1) (sym done),
      )

  -- Symlink under a virtual name answers success also when its write leaves no file at that name on
  -- either storage, as in a directory that is not there or is full; GetAttr of the name then answers
  -- that there is no such file.
  pub symlink_unwritten :
      (path link : Bytes) (v : Server P)
      → is_virtual_symlink link ≡ true
      → P.exists
          (write_one_line P (local_path v.md_manager link) path v.fs)
          (local_path v.md_manager link)
        ≡ false
      → P.exists
          (write_one_line P (local_path v.md_manager link) path v.fs)
          (secondary_path v.md_manager link)
        ≡ false
      → let w = (symlink P path link v).1 in
        ((symlink P path link v).0 ≡ result (pos 0))
        × ((get_attr P link w).0 ≡ result (neg 2, none, []))
  unfolding get_attr Manager.get_file_stat
  symlink_unwritten path link v virtual near far =
      let done = symlink_virtual path link v virtual in
      (ap (λ r. r.0) done, ap (λ r. (get_attr P link r.1).0) done ∙ ground (arith, near, far))
