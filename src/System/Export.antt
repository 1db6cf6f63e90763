-- ===== src/System/Export.antt =====
-- LocalFileExport across the client of src/cbb/burst_buffer_client.cc and the server of
-- src/cbb/burst_buffer.cc.
use cbb.Prelude.{ℕ, ◌≡◌, refl, true, false, [], Option, some, if◌then◌else◌, ◌⊎◌, inl, inr, arith}
use cbb.Text.{Bytes}
use cbb.Text.Find.{eqb_iff}
use cbb.StdMap.{lookup}
use cbb.Posix.{Posix, IsLawful}
use cbb.Manager.{local_path, secondary_path}
use cbb.Exporter.{Exporter, Outcome, returned, threw, blocked, check_local_files}
use cbb.Exporter.CheckFile.{IsDisjoint, is_current}
use cbb.Exporter.Export.{check_local_files_exports}
use cbb.Server.{Server, result}
use cbb.Server.Files.{local_file_export}
use cbb.Client.{Request, Response, Method, Network, Client, ended, client_call, retry_loop}
use cbb.Dispatch.Handlers.{Junk, dispatch, dispatch_to}
use cbb.System.{Delivers}

-- The request of LocalFileExport.
abbrev pub export_request : Request
export_request = record { method = Method.local_file_export; params = [] }

result-Outcome :
    {S : Type 0} (o : Outcome (Exporter × S))
    → ((x : Exporter) × (t : S) × (o ≡ returned (x, t)))
      ⊎ ((x : Exporter) × (t : S) × (o ≡ threw (x, t)))
      ⊎ (o ≡ blocked)
result-Outcome (returned (x, t)) = inl (x, t, refl)
result-Outcome (threw (x, t)) = inr (inl (x, t, refl))
result-Outcome blocked = inr (inr refl)

module _ (P : Posix) (fuel : ℕ) (junk : Junk) where
  -- The server answers only where CheckLocalFiles returns.
  export_answered :
      (v : Server P) (a : Response)
      → (dispatch P fuel junk export_request v).0 ≡ result a
      → (x : Exporter) × (t : P.State) × (check_local_files P v.md_manager v.lf_exporter v.fs
          ≡ returned (x, t))
        × ((dispatch P fuel junk export_request v).1 ≡ record v { lf_exporter = x; fs = t })
  unfolding dispatch dispatch_to local_file_export
  export_answered v a e =
      elim (result-Outcome (check_local_files P v.md_manager v.lf_exporter v.fs)) [
        | inl (x, t, done) ↦ (x, t, done, ground (arith, done))
        | inr (inl (x, t, thrown)) ↦ ground (arith, thrown, e)
        | inr (inr stuck) ↦ ground (arith, stuck, e)
      ]

module _ (P : Posix) (fuel : ℕ) (junk : Junk) (N : Network)
    (server_at : N.World → Bytes → ℕ → Option (Server P))
    (D : Delivers P fuel junk N server_at) where
  client_call_result :
      (host : Bytes) (port : ℕ) (req : Request) (c : Client N) (v : Server P) (a : Response)
      → c.is_locked ≡ false
      → server_at c.world host port ≡ some v
      → (client_call N host port req c).0 ≡ ended a
      → ((dispatch P fuel junk req v).0 ≡ result a)
        × ((client_call N host port req c).1.world ≡ (N.send host port req c.world).1)
  unfolding client_call retry_loop
  client_call_result host port req c v a u at e =
      ground (arith, D.answers host port req c.world v at)

  -- With the mutex free, roots that are disjoint, and copying and removing as documented: when a call
  -- of LocalFileExport on a server that runs brings back a reply, every file that was registered on
  -- this server and was on its local storage is on the secondary one with what was there before, if
  -- that was not older than the local file, and with the data of the local file otherwise; the local
  -- file has not changed, and it stays registered.
  pub client_call_exports :
      (content : P.State → Bytes → Option Bytes) (L : IsLawful P content) (v : Server P)
      (apart : IsDisjoint v.md_manager) (host : Bytes) (port : ℕ) (c : Client N) (a : Response)
      (f : Bytes) (time : ℕ)
      → c.is_locked ≡ false
      → server_at c.world host port ≡ some v
      → (client_call N host port export_request c).0 ≡ ended a
      → lookup f v.lf_exporter.local_files ≡ some time
      → P.exists v.fs (local_path v.md_manager f) ≡ true
      → let near = local_path v.md_manager f in
        let far = secondary_path v.md_manager f in
        (w : Server P) × (server_at (client_call N host port export_request c).1.world host port
          ≡ some w)
        × (content w.fs far
            ≡ (if is_current P near far v.fs then content v.fs far else content v.fs near))
        × (content w.fs near ≡ content v.fs near)
        × (lookup f w.lf_exporter.local_files ≡ some time)
  client_call_exports content L v apart host port c a f time u at e reg here =
      let (answer, moved) = client_call_result host port export_request c v a u at e in
      let (x, t, done, after) = export_answered P fuel junk v a answer in
      let (far, near, kept) =
        check_local_files_exports P content L v.md_manager apart v.lf_exporter x v.fs t f time done
          reg here in
      (
        record v { lf_exporter = x; fs = t },
        ground (
          arith,
          moved,
          after,
          D.server_at-send host host port port export_request c.world v at,
          eqb_iff host host,
        ),
        far,
        near,
        ground (arith, kept f, here, reg),
      )
