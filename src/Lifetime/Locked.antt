-- ===== src/Lifetime/Locked.antt =====
-- A server of src/cbb/burst_buffer.cc after an exception left the exporter's mutex locked.
use cbb.Lifetime.Managers.{Every}
use cbb.Prelude.{◌∙◌, ℕ, ◌≡◌, refl, arith, Bool, true, false, ◌%◌, ◌==◌, ℤ, List, ◌∷◌}
use cbb.Text.{Bytes}
use cbb.Posix.{Posix}
use cbb.FileControl.{write_flag}
use cbb.Exporter
use cbb.Server.Directories
use cbb.Server.Files
use cbb.Server.Names
use cbb.Server.{Server, Reply, Handler, result, error_reply, no_reply}
use cbb.Client.{Method, Param, Request, Response, text, num}
use cbb.Dispatch.Arguments.{BranchMoves, text_arg-Moves, natural_arg-Moves, signed_arg-Moves}
use cbb.Dispatch.Frame.{MovesTables, dispatch-Moves}
use cbb.Dispatch.Handlers.{Junk, dispatch, dispatch_to, finish, reply, pattern_of}
use cbb.Lifetime.{Log, Reach, here, serve, watch, outside}

abbrev pub has_result : {A : Type 0} → Reply A → Bool
has_result (result a) = true
has_result error_reply = false
has_result no_reply = false

-- The requests that lock the exporter's mutex in any case: Create, Open with the lowest bit of the
-- flags set, and the export of the local files.
pub data Locks : Request → Type 0 where
  creating : (params : List Param) → Locks (record { method = Method.create; params = params })
  exporting :
      (params : List Param) → Locks (record { method = Method.local_file_export; params = params })
  opening :
      (path : Bytes) (flags : ℤ) (params : List Param)
      → (pattern_of flags % 2 == 1) ≡ true
      → Locks (record { method = Method.open_file; params = text path ∷ num flags ∷ params })

module _ (P : Posix) where
  abbrev Stuck : Server P → Server P → Type 0
  Stuck v w = v.lf_exporter.locked ≡ true → w.lf_exporter ≡ v.lf_exporter

  unlink-Stuck : (a : Bytes) (v : Server P) → Stuck v (Names.unlink P a v).1
  unfolding Names.unlink Names.unlink_secondary Exporter.unregister
  unlink-Stuck a v h = ground arith

  rename_file-Stuck : (a b : Bytes) (v : Server P) → Stuck v (Names.rename_file P a b v).1
  unfolding Names.rename_file Exporter.unregister
  rename_file-Stuck a b v h = ground arith

  rename-Stuck :
      (fuel : ℕ) (a b : Bytes) (v : Server P) → Stuck v (Directories.rename P fuel a b v).1
  unfolding Directories.rename Directories.rename_directory
  rename-Stuck fuel a b v h = ground (arith, rename_file-Stuck a b v h)

  open_file-Stuck : (a : Bytes) (b : ℕ) (v : Server P) → Stuck v (Files.open_file P a b v).1
  unfolding Files.open_file Files.open_registered Exporter.unregister
  open_file-Stuck a b v h = ground arith

  create-Stuck : (a : Bytes) (b c : ℕ) (v : Server P) → Stuck v (Files.create P a b c v).1
  unfolding Files.create Exporter.unregister
  create-Stuck a b c v h = ground arith

  release-Stuck : (a : Bytes) (b : ℕ) (v : Server P) → Stuck v (Files.release P a b v).1
  unfolding Files.release Exporter.register
  release-Stuck a b v h = ground arith

  export-Stuck : (v : Server P) → Stuck v (Files.local_file_export P v).1
  unfolding Files.local_file_export Exporter.check_local_files
  export-Stuck v h = ground arith

  module _ (fuel : ℕ) (junk : Junk) where
    handlers-Stuck : MovesTables P fuel junk Every Stuck
    unfolding Files.file_flush
    handlers-Stuck = record {
      fs = λ v s h. refl;
      unlink = λ ok. unlink-Stuck;
      rename = λ ok. rename-Stuck fuel;
      open_file = λ ok. open_file-Stuck;
      create = λ ok. create-Stuck;
      release = λ ok. release-Stuck;
      file_flush = λ ok a v h. refl;
      local_file_export = λ ok. export-Stuck;
    }

    abbrev Silent : Server P → Reply Response × Server P → Type 0
    Silent v (r, w) = v.lf_exporter.locked ≡ true → has_result r ≡ false

    reply-Silent :
        {A : Type 0} (f : A → Response) (h : Handler P A)
        → ((v : Server P) → v.lf_exporter.locked ≡ true → (h v).0 ≡ no_reply)
        → BranchMoves P Silent (finish (reply P fuel junk f h))
    reply-Silent f h silent = record { at = λ params v l. rw (silent v l, has_result) }

    export_no_reply :
        (v : Server P) → v.lf_exporter.locked ≡ true → (Files.local_file_export P v).0 ≡ no_reply
    unfolding Files.local_file_export Exporter.check_local_files
    export_no_reply v l = ground arith

    create_no_reply :
        (a : Bytes) (b c : ℕ) (v : Server P)
        → v.lf_exporter.locked ≡ true
        → (Files.create P a b c v).0 ≡ no_reply
    unfolding Files.create Exporter.unregister
    create_no_reply a b c v l = ground arith

    open_no_result :
        (path : Bytes) (flags : ℤ) (params : List Param) (v : Server P)
        → (pattern_of flags % 2 == 1) ≡ true
        → v.lf_exporter.locked ≡ true
        → has_result (dispatch_to P fuel junk Method.open_file (text path ∷ num flags ∷ params) v).0
          ≡ false
    unfolding dispatch_to Files.open_file Exporter.unregister write_flag
    open_no_result path flags params v e l = ground arith

    create-Silent : BranchMoves P Silent (dispatch_to P fuel junk Method.create)
    unfolding dispatch_to
    create-Silent =
        let refuses = λ (v : Server P) (l : v.lf_exporter.locked ≡ true). refl in
        text_arg-Moves P Silent refuses _ (λ a. signed_arg-Moves P Silent refuses _ _ (λ b.
          natural_arg-Moves P Silent refuses _ _
            (λ c. reply-Silent _ _ (create_no_reply a (pattern_of b) c))))

    export-Silent : BranchMoves P Silent (dispatch_to P fuel junk Method.local_file_export)
    unfolding dispatch_to
    export-Silent = reply-Silent _ _ export_no_reply

    dispatch_no_result :
        (req : Request) (v : Server P)
        → Locks req
        → v.lf_exporter.locked ≡ true
        → has_result (dispatch P fuel junk req v).0 ≡ false
    unfolding dispatch
    dispatch_no_result _ v (creating params) l = create-Silent.at params v l
    dispatch_no_result _ v (exporting params) l = export-Silent.at params v l
    dispatch_no_result _ v (opening path flags params e) l = open_no_result path flags params v e l

    reach-Stuck : (v w : Server P) (log : Log) → Reach P fuel junk v log w → Stuck v w
    unfolding Exporter.check_local_files
    reach-Stuck v _ _ here l = refl
    reach-Stuck v _ _ (serve {log} {u} run req) l =
        let same = reach-Stuck v u log run l in
        dispatch-Moves P fuel junk Every Stuck handlers-Stuck req tt u (rw same l) ∙ same
    reach-Stuck v _ _ (watch {log} {u} run x s e) l =
        let same = reach-Stuck v u log run l in ground arith
    reach-Stuck v _ _ (outside {log} {u} run s) l = reach-Stuck v u log run l

    local_file_export_locked :
        (v w : Server P)
        → Files.local_file_export P v ≡ (error_reply, w)
        → w.lf_exporter.locked ≡ true
    unfolding Files.local_file_export Exporter.check_local_files
    local_file_export_locked v w h = ground arith

    -- After an export that ended in an exception, whatever requests the server gets, whatever its
    -- exporter thread does and whatever others do to the storages: the exporter's table never changes
    -- again, and no Create, no Open with the lowest bit of the flags set and no export has a result.
    pub locks-Reach :
        (v w u : Server P) (log : Log) (req : Request)
        → Files.local_file_export P v ≡ (error_reply, w)
        → Reach P fuel junk w log u
        → Locks req
        → (u.lf_exporter ≡ w.lf_exporter) × (has_result (dispatch P fuel junk req u).0 ≡ false)
    locks-Reach v w u log req threw run locks =
        let locked = local_file_export_locked v w threw in
        let same = reach-Stuck w u log run locked in
        (same, dispatch_no_result req u locks (rw same locked))
