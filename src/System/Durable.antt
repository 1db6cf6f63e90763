-- ===== src/System/Durable.antt =====
-- The way of a new file from the client of src/cbb/burst_buffer_client.cc over the local storage of
-- its server to the secondary one.
use cbb.System.NewFile.{create_remotely, paths_register, file_of, created}
use cbb.System.Rewrite.{export-release-write}
use cbb.System.Export.{export_request}
use cbb.Exporter.CheckFile.{IsDisjoint, is_current}
use cbb.Posix.Data.{splice, splice_new, KeepsData}
use cbb.Prelude.{
  take, sym, take-length, ◌∙◌, length, ℕ, ◌≡◌, ◌<◌, ◌^◌, true, false, pos, [], some, Option, arith,
  refl,
}
use cbb.Text.{eqb, Bytes}
use cbb.Text.Find.{eqb_iff}
use cbb.Common.{ok}
use cbb.Posix.{IsLawful, Posix}
use cbb.Manager.{local_path, secondary_path}
use cbb.Server.{Server}
use cbb.Client.{client_call, Response, Network, Client, ended, to_u16}
use cbb.Client.Files
use cbb.Client.Files.{File, handle}
use cbb.SelectServer.{get_info, ServerInfo}
use cbb.Dispatch.Handlers.{Junk}
use cbb.System.{Delivers}
use cbb.System.Data.{Ready}

module _ (N : Network) where
  -- The client after it made a file, after it also wrote it, and after it also released it.
  abbrev pub made_by : Bytes → ℕ → ℕ → Client N → Client N
  made_by path flags mode c = (Files.create N path (pos flags) mode c).1

  abbrev pub written_by : File → Bytes → ℕ → ℕ → Client N → Client N
  written_by file bs flags mode c =
      (Files.write N file bs (pos 0) (made_by file.path flags mode c)).1

  abbrev pub released_by : File → Bytes → ℕ → ℕ → Client N → Client N
  released_by file bs flags mode c = (Files.release N file (written_by file bs flags mode c)).1

module _ (P : Posix) (content : P.State → Bytes → Option Bytes) (names : P.State → ℕ → Option Bytes)
    (K : KeepsData P content names) where
  -- What a new file has after it was made, and where no copy is after it was also written and closed.
  stored_new :
      (p far bs : Bytes) (flags mode fd : ℕ) (s s1 s2 : P.State)
      → P.exists s p ≡ false
      → P.exists s far ≡ false
      → eqb far p ≡ false
      → P.open_file_mode p flags mode s ≡ (ok fd, s1)
      → P.pwrite fd bs (pos 0) s1 ≡ (ok (length bs), s2)
      → (P.exists s1 p ≡ true)
        × (P.exists (P.close fd s2).1 far ≡ false)
        × (names s1 fd ≡ some p)
        × (content s1 p ≡ some [])
  stored_new p far bs flags mode fd s s1 s2 new other apart made put =
      let made_at = λ (q : Bytes). K.exists-open_file_mode s s1 p q flags mode fd new made in
      (
        made_at p ∙ ground (arith, eqb_iff p p),
        K.exists-close s2 fd far
            ∙ K.exists-pwrite s1 s2 bs far fd 0 (length bs) put
            ∙ made_at far
            ∙ rw apart other,
        K.names-open_file_mode s s1 p flags mode fd made,
        K.content-open_file_mode s s1 p flags mode fd new made,
      )

is_current_absent :
    (P : Posix) (near far : Bytes) (s : P.State)
    → P.exists s far ≡ false
    → is_current P near far s ≡ false
unfolding is_current
is_current_absent P near far s absent = rw absent refl

module _ (P : Posix) (fuel : ℕ) (junk : Junk) (N : Network)
    (server_at : N.World → Bytes → ℕ → Option (Server P)) (D : Delivers P fuel junk N server_at)
    (content : P.State → Bytes → Option Bytes) (L : IsLawful P content)
    (names : P.State → ℕ → Option Bytes) (K : KeepsData P content names) where
  -- With disjoint roots, both mutexes free, the calls on files as documented, and a path that neither
  -- storage of its server has: when open gives a descriptor, pwrite writes all of the bytes, which are
  -- fewer than 2 ^ 31, and the time of the local file can be read after close, Create gives an open
  -- file and Write reports all the bytes; and when the export that follows Release is answered, both
  -- storages of this server have the file with just these bytes.
  pub export-release-write-create :
      (path bs : Bytes) (flags mode fd time : ℕ) (c : Client N) (info : ServerInfo) (v : Server P)
      (s1 s2 : P.State) (a : Response)
      → get_info c.select_server path ≡ some info
      → Ready P fuel junk N server_at D info.host (to_u16 info.port) v c
      → IsDisjoint v.md_manager
      → v.lf_exporter.locked ≡ false
      → flags < 2 ^ 31
      → mode < 2 ^ 32
      → fd < 2 ^ 31
      → length bs < 2 ^ 31
      → P.exists v.fs (local_path v.md_manager path) ≡ false
      → P.exists v.fs (secondary_path v.md_manager path) ≡ false
      → P.open_file_mode (local_path v.md_manager path) flags mode v.fs ≡ (ok fd, s1)
      → P.pwrite fd bs (pos 0) s1 ≡ (ok (length bs), s2)
      → P.last_write_time (P.close fd s2).1 (local_path v.md_manager path) ≡ ok time
      → (client_call N info.host
          (to_u16 info.port)
          export_request
          (released_by N (file_of N path info fd) bs flags mode c)).0
        ≡ ended a
      → let file = file_of N path info fd in
        let last =
          client_call N info.host
            (to_u16 info.port)
            export_request
            (released_by N file bs flags mode c) in
        ((Files.create N path (pos flags) mode c).0 ≡ ended (pos 0, some file))
        × ((Files.write N file bs (pos 0) (made_by N path flags mode c)).0
            ≡ ended (pos 0, pos (length bs)))
        × (w : Server P) × (server_at last.1.world info.host (to_u16 info.port) ≡ some w)
        × (content w.fs (secondary_path v.md_manager path) ≡ some bs)
        × (content w.fs (local_path v.md_manager path) ≡ some bs)
  export-release-write-create path bs flags mode fd time c info v s1 s2 a i r apart u fl mo fits
        small new far_new made put timed answered =
      let p = local_path v.md_manager path in
      let far = secondary_path v.md_manager path in
      let file = file_of N path info fd in
      let v1 = created P fuel junk path fd s1 v in
      let (there, absent, named, empty) =
        stored_new P content names K p far bs flags mode fd v.fs s1 s2 new far_new
          (ground (arith, eqb_iff far p, apart path path)) made put in
      let paths = λ (q : Bytes). paths_register path q fd v.md_manager in
      let (near_same, far_same) = paths path in
      let (made_file, r1) =
        create_remotely P fuel junk N server_at D path flags mode fd c info v s1 i r fl mo u made in
      let (wrote, w, at, second, first) =
        export-release-write P fuel junk N server_at D content L names K file bs [] 0 (length bs)
          time (made_by N path flags mode c) v1 s2 a r1
          (λ x y e. apart x y (sym (paths x).0 ∙ e ∙ (paths y).1)) u fits (omega arith) small
          (rw near_same named) (rw near_same empty) (rw near_same there) put (rw near_same timed)
          (rw far_same (is_current_absent P _ far _ absent)) answered in
      let whole : splice [] 0 (take (length bs) bs) ≡ bs =
        rw (take-length bs, splice_new bs) refl in
      (made_file, wrote, w, at, rw (far_same, whole) at second, rw (near_same, whole) at first)
