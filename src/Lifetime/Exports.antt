-- ===== src/Lifetime/Exports.antt =====
-- What the log of a server of src/cbb/burst_buffer.cc says of the table of closed files in
-- src/cbb/local_file_exporter.h.
use cbb.Prelude.{
  ℤ, ℕ, ◌≡◌, refl, arith, Bool, true, false, not, ◌&&◌, ◌||◌, ◌%◌, ◌==◌, List, [], ◌∷◌, none, some,
}
use cbb.Text.{Bytes, eqb}
use cbb.FileControl.{write_flag}
use cbb.StdMap.{lookup}
use cbb.StdMap.Laws.{lookup-assign, lookup-erase}
use cbb.Posix.{Posix}
use cbb.Manager
use cbb.Exporter
use cbb.Exporter.{Exporter, check_local_files, check_files, returned}
use cbb.Exporter.CheckFile.{lookup-erase_all}
use cbb.Server.Files
use cbb.Server.Names
use cbb.Server.{Server, Reply, error_reply, Handler}
use cbb.Client.{Method, Param, Request, Response, text, num}
use cbb.Dispatch.Arguments.{natural_arg-Moves, signed_arg-Moves}
use cbb.Dispatch.Frame.{reply-second, MovesTables, dispatch-Moves}
use cbb.Dispatch.Handlers.{Junk, dispatch, dispatch_to, pattern_of, reply, code_reply}
use cbb.Lifetime.{Log, Reach, here, serve, watch, outside}
use cbb.Lifetime.Locked.{has_result}

-- Whether a file is registered for export.
abbrev pub is_registered : Exporter → Bytes → Bool
is_registered x f = elim (lookup f x.local_files) [ none ↦ false | some time ↦ true ]

-- Whether a request may register a file: a Release of it, or a Rename, which may search for all files.
unfoldable pub may_register : Method → List Param → Bytes → Bool
may_register Method.release (text path ∷ params) f = eqb f path
may_register Method.rename params f = true
may_register _ params f = false

-- Whether a request that was answered opened a file to write it: Create, or Open with the lowest bit of
-- the flags set.
unfoldable pub opens_to_write : Method → List Param → Reply Response → Bytes → Bool
opens_to_write Method.create (text path ∷ params) r f = eqb f path && has_result r
opens_to_write Method.open_file (text path ∷ num flags ∷ params) r f =
    eqb f path && pattern_of flags % 2 == 1 && has_result r
opens_to_write _ params r f = false

-- Whether, by the log, a file was registered, at first or since, and not opened to write it later.
unfoldable pub registered_since : Bool → Log → Bytes → Bool
unfolding may_register opens_to_write
registered_since first [] f = first
registered_since first ((req, r) ∷ log) f =
    may_register req.method req.params f
    || (not (opens_to_write req.method req.params r f) && registered_since first log f)

changes : Method → Bool
changes Method.create = true
changes Method.open_file = true
changes Method.release = true
changes Method.rename = true
changes _ = false

module _ (P : Posix) (f : Bytes) where
  abbrev in_table : Server P → Bool
  in_table v = is_registered v.lf_exporter f

  abbrev Stays : Server P → Server P → Type 0
  Stays v w = in_table w ≡ true → in_table v ≡ true

  unlink-Stays : (a : Bytes) (v : Server P) → Stays v (Names.unlink P a v).1
  unfolding Names.unlink Names.unlink_secondary Exporter.unregister
  unlink-Stays a v h = ground (arith, lookup-erase a f v.lf_exporter.local_files)

  check_local_files-Stays :
      (m : Manager.Manager) (x y : Exporter) (s t : P.State)
      → check_local_files P m x s ≡ returned (y, t)
      → is_registered y f ≡ true
      → is_registered x f ≡ true
  unfolding check_local_files
  check_local_files-Stays m x y s t e h =
      ground
        (arith, lookup-erase_all f (check_files P m x.local_files s).erase_filename x.local_files)

  export-Stays : (v : Server P) → Stays v (Files.local_file_export P v).1
  unfolding Files.local_file_export check_local_files
  export-Stays v h = ground (
    arith,
    lookup-erase_all f (check_files P v.md_manager v.lf_exporter.local_files v.fs).erase_filename
        v.lf_exporter.local_files,
  )

  release_registers_only :
      (path : Bytes) (fd : ℕ) (v : Server P)
      → in_table (Files.release P path fd v).1 ≡ true
      → (eqb f path || in_table v) ≡ true
  unfolding Files.release Exporter.register
  release_registers_only path fd v h = grind (arith, lookup-assign)

  module _ (fuel : ℕ) (junk : Junk) where
    abbrev Quiet : Method → Type 0
    Quiet m = changes m ≡ false

    handlers-Stays : MovesTables P fuel junk Quiet Stays
    unfolding changes Files.file_flush
    handlers-Stays = record {
      fs = λ v s h. h;
      unlink = λ ok. unlink-Stays;
      rename = λ ok a b v. ground arith;
      open_file = λ ok a b v. ground arith;
      create = λ ok a b c v. ground arith;
      release = λ ok a b v. ground arith;
      file_flush = λ ok a v h. h;
      local_file_export = λ ok. export-Stays;
    }

    -- A path leaves the table where the request is answered.
    abbrev Stops : Bytes → Server P → Reply Response × Server P → Type 0
    Stops path v (r, w) =
        in_table w ≡ true → (not (eqb f path && has_result r) && in_table v) ≡ true

    refused-Stops : (path : Bytes) (v : Server P) → Stops path v (error_reply, v)
    refused-Stops path v h = ground arith

    create-Stops :
        (path : Bytes) (b c : ℕ) (v : Server P)
        → Stops path v (reply P fuel junk (code_reply P fuel junk) (Files.create P path b c) v)
    unfolding Files.create Exporter.unregister
    create-Stops path b c v h = ground (arith, lookup-erase path f v.lf_exporter.local_files)

    open_file-Stops :
        (path : Bytes) (b : ℕ) (v : Server P)
        → in_table (Files.open_file P path b v).1 ≡ true
        → (not (eqb f path && b % 2 == 1 && has_result (Files.open_file P path b v).0)
            && in_table v)
          ≡ true
    unfolding Files.open_file Files.open_registered Exporter.unregister write_flag
    open_file-Stops path b v h = ground (arith, lookup-erase path f v.lf_exporter.local_files)

    has_result-reply :
        (h : Handler P ℤ) (v : Server P)
        → has_result (reply P fuel junk (code_reply P fuel junk) h v).0 ≡ has_result (h v).0
    has_result-reply h v = ground arith

    -- What a request does to the table.
    abbrev Step : Method → List Param → Server P → Reply Response × Server P → Type 0
    Step m params v (r, w) =
        in_table w ≡ true
        → (may_register m params f || (not (opens_to_write m params r f) && in_table v)) ≡ true

    request-Step :
        (m : Method) (params : List Param) (v : Server P)
        → Step m params v (dispatch_to P fuel junk m params v)
    unfolding dispatch dispatch_to may_register opens_to_write changes
    request-Step Method.create (text path ∷ params) v h =
        (signed_arg-Moves P (Stops path) (refused-Stops path) _ _ (λ b.
            natural_arg-Moves P (Stops path) (refused-Stops path) _ _
              (λ c. record { at = λ _. create-Stops path (pattern_of b) c }))).at
          params v h
    request-Step Method.create params v h = h
    request-Step Method.open_file (text path ∷ num flags ∷ params) v h =
        let handler = Files.open_file P path (pattern_of flags) in
        ground (
          arith,
          reply-second P fuel junk (code_reply P fuel junk) handler v,
          has_result-reply handler v,
          open_file-Stops path (pattern_of flags) v,
        )
    request-Step Method.open_file params v h = h
    request-Step Method.release (text path ∷ num fd ∷ params) v h = ground (
      arith,
      reply-second P fuel junk (code_reply P fuel junk) (Files.release P path (pattern_of fd)) v,
      release_registers_only path (pattern_of fd) v,
    )
    request-Step Method.release (text path ∷ params) v h = ground arith
    request-Step Method.release params v h = h
    request-Step Method.rename params v h = refl
    request-Step m params v h =
        let req : Request = record { method = m; params = params } in
        dispatch-Moves P fuel junk Quiet Stays handlers-Stays req refl v h

    -- Whatever requests the server gets, whatever its exporter thread copies and whatever others do to
    -- the storages: a file in the exporter's table was there at first, or was registered since, and
    -- after that no Create of it, and no Open of it with the lowest bit of the flags set, was answered.
    -- What may register a file is a Release of it, or a Rename, which may search for all files.
    pub registered-Reach :
        (v w : Server P) (log : Log)
        → Reach P fuel junk v log w
        → in_table w ≡ true
        → registered_since (in_table v) log f ≡ true
    unfolding registered_since dispatch
    registered-Reach v _ _ here h = h
    registered-Reach v _ _ (serve {log} {u} run req) h =
        ground (arith, request-Step req.method req.params u h, registered-Reach v u log run)
    registered-Reach v _ _ (watch {log} {u} run x s e) h =
        registered-Reach v u log run
          (check_local_files-Stays u.md_manager u.lf_exporter x u.fs s e h)
    registered-Reach v _ _ (outside {log} {u} run s) h = registered-Reach v u log run h
