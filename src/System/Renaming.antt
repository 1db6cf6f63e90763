-- ===== src/System/Renaming.antt =====
-- Rename of src/cbb/burst_buffer_client.cc on a server of src/cbb/burst_buffer.cc: what the client
-- returns, and what became of the file.
use cbb.Prelude.{
  ap, ℕ, negsuc, not, ◌&&◌, is_neg, ◌≡◌, ◌≢◌, true, false, Option, none, some, arith, [], ◌∷◌,
}
use cbb.Text.{Bytes}
use cbb.Common.{Error}
use cbb.Posix.{Posix, IsLawful}
use cbb.Manager.{local_path, secondary_path}
use cbb.Exporter.CheckFile.{IsDisjoint}
use cbb.Server.{Server, result}
use cbb.Server.Names.{rename_file}
use cbb.Server.Directories
use cbb.Server.Renaming.{rename_file_loses}
use cbb.SelectServer.{get_info, ServerInfo}
use cbb.Client.{
  Method, text, Request, Network, Client, ended, call_at, get_burst_buffer, s_isdir, to_u16,
}
use cbb.Client.Names.{Attr, get_attr_ex, rename}
use cbb.Dispatch.Handlers.{Junk, dispatch, dispatch_to, code_reply}
use cbb.System.{Delivers}
use cbb.System.Calls.{sent_to}
use cbb.System.Data.{Ready, client_call-Ready}

abbrev pub rename_request : Bytes → Bytes → Request
rename_request old_path new_path = record {
  method = Method.rename;
  params = text old_path ∷ text new_path ∷ [];
}

module _ (P : Posix) (fuel : ℕ) (junk : Junk) where
  rename_dispatched :
      (old_path new_path : Bytes) (v : Server P) (e : Error)
      → P.is_directory v.fs (local_path v.md_manager old_path) ≡ false
      → (rename_file P old_path new_path v).0 ≡ result e
      → dispatch P fuel junk (rename_request old_path new_path) v
        ≡ (result (code_reply P fuel junk e), (rename_file P old_path new_path v).1)
  unfolding dispatch dispatch_to Directories.rename
  rename_dispatched old_path new_path v e d answer = ground (arith, answer)

module _ (P : Posix) (fuel : ℕ) (junk : Junk) (N : Network)
    (server_at : N.World → Bytes → ℕ → Option (Server P)) (D : Delivers P fuel junk N server_at)
    (content : P.State → Bytes → Option Bytes) (L : IsLawful P content) where
  -- With disjoint roots, both mutexes free, and removing and copying as documented: the look-up of the
  -- old path is answered, and it is no directory; on its server it is a regular local file, and the
  -- secondary storage has the new name. Then Rename returns what the look-up said, although the server
  -- answers -1 and the file is destroyed: it is gone from both storages under the old name, and the
  -- new name keeps its former data.
  pub rename_hides_loss :
      (old_path new_path text_of : Bytes) (c d : Client N) (a : Attr) (info : ServerInfo)
      (v : Server P)
      → get_attr_ex N old_path c ≡ (ended a, d)
      → (not (is_neg a.error) && s_isdir a.file_stat.st_mode) ≡ false
      → get_info d.select_server old_path ≡ some info
      → Ready P fuel junk N server_at D info.host (to_u16 info.port) v d
      → IsDisjoint v.md_manager
      → v.lf_exporter.locked ≡ false
      → P.exists v.fs (local_path v.md_manager old_path) ≡ true
      → P.is_directory v.fs (local_path v.md_manager old_path) ≡ false
      → P.is_regular_file v.fs (local_path v.md_manager old_path) ≡ true
      → content v.fs (local_path v.md_manager old_path) ≡ some text_of
      → P.exists v.fs (secondary_path v.md_manager new_path) ≡ true
      → secondary_path v.md_manager new_path ≢ secondary_path v.md_manager old_path
      → let r = rename N old_path new_path c in
        (r.0 ≡ ended a.error)
        × ((dispatch P fuel junk (rename_request old_path new_path) v).0
            ≡ result (code_reply P fuel junk (negsuc 0)))
        × (w : Server P) × (server_at r.1.world info.host (to_u16 info.port) ≡ some w)
        × (content w.fs (local_path v.md_manager old_path) ≡ none)
        × (content w.fs (secondary_path v.md_manager old_path) ≡ none)
        × (content w.fs (secondary_path v.md_manager new_path)
            ≡ content v.fs (secondary_path v.md_manager new_path))
  unfolding rename call_at get_burst_buffer
  rename_hides_loss old_path new_path text_of c d a info v looked plain i r apart u x nd g l y
        other =
      let (answer, near, far, new) =
        rename_file_loses P content L old_path new_path text_of v apart u x g l y other in
      let ran = rename_dispatched P fuel junk old_path new_path v (negsuc 0) nd answer in
      let req = rename_request old_path new_path in
      let w = (rename_file P old_path new_path v).1 in
      let (done, after) =
        client_call-Ready P fuel junk N server_at D info.host (to_u16 info.port) req d v w _ r
          ran in
      let whole : rename N old_path new_path c
          ≡ (ended a.error, sent_to N info.host (to_u16 info.port) req d) =
        ground (arith, looked, plain, i, done) in
      (ap (λ o. o.0) whole, ap (λ o. o.0) ran, w, rw whole after.server, near, far, new)
