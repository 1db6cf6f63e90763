-- ===== src/Placement/Tables.antt =====
-- What each request does to the paths that are open on a server of src/cbb/burst_buffer.cc.
use cbb.Lifetime.Managers.{
  local_file_export-md_manager, release-md_manager, rename-md_manager, unlink-md_manager,
}
use cbb.Dispatch.Frame.{dispatch-Moves, MovesTables}
use cbb.Dispatch.Arguments.{natural_arg-Moves, signed_arg-Moves}
use cbb.Server.Files
use cbb.Server.{error_reply, Reply, Server}
use cbb.Dispatch.Handlers.{code_reply, reply, pattern_of, dispatch_to, dispatch, Junk}
use cbb.Prelude.{refl, ℕ, ◌≡◌, arith, Bool, true, false, ◌||◌, List, ◌∷◌, inl, inr, Option-cases}
use cbb.Text.{Bytes, eqb}
use cbb.Text.Find.{eqb_iff}
use cbb.StdMap.{lookup, set_insert, set_erase}
use cbb.StdMap.Laws.{lookup-assign, lookup-erase}
use cbb.Posix.{Posix}
use cbb.Manager
use cbb.Exporter
use cbb.Manager.{
  Manager, is_buffered, descriptors, register, unregister_fd, unregister, create, open_local,
  open_file,
}
use cbb.Manager.Table.{SysResult-cases}
use cbb.Client.{Request, Response, Method, Param, text}

is_buffered-register :
    (path q : Bytes) (fd : ℕ) (m : Manager)
    → is_buffered (register path fd m) q ≡ (eqb q path || is_buffered m q)
unfolding is_buffered register
is_buffered-register path q fd m =
    ground (
      arith,
      eqb_iff q path,
      lookup-assign path q (set_insert fd (descriptors m.table path)) m.table,
    )

-- Each path that is open afterwards was open before.
abbrev Fewer : Manager → Manager → Type 0
Fewer m n = (q : Bytes) → is_buffered n q ≡ true → is_buffered m q ≡ true

unregister_fd-Fewer : (path : Bytes) (fd : ℕ) (m : Manager) → Fewer m (unregister_fd path fd m)
unfolding is_buffered unregister_fd
unregister_fd-Fewer path fd m q h = elim (Option-cases (lookup path m.table)) [
  | inl e ↦ ground (arith, e)
  | inr (fds, e) ↦ ground (
    arith,
    e,
    lookup-assign path q (set_erase fd fds) m.table,
    lookup-erase path q m.table,
    eqb_iff q path,
  )
]

-- The path that a request may open.
unfoldable pub may_open : Method → List Param → Bytes → Bool
may_open Method.create (text path ∷ params) q = eqb q path
may_open Method.open_file (text path ∷ params) q = eqb q path
may_open _ params q = false

adds : Method → Bool
adds Method.create = true
adds Method.open_file = true
adds _ = false

module _ (P : Posix) where
  unregister-Fewer : (path : Bytes) (m : Manager) (s : P.State) → Fewer m (unregister P path m s).0
  unfolding is_buffered unregister
  unregister-Fewer path m s q h = ground (arith, lookup-erase path q m.table)

  -- One path may be open afterwards that was not open before.
  abbrev More : Bytes → Manager → Manager → Type 0
  More path m n = (q : Bytes) → is_buffered n q ≡ true → (eqb q path || is_buffered m q) ≡ true

  create-More :
      (path : Bytes) (flags mode : ℕ) (m : Manager) (s : P.State)
      → More path m (create P path flags mode m s).1
  unfolding create
  create-More path flags mode m s q h =
      elim (SysResult-cases (P.open_file_mode (Manager.local_path m path) flags mode s).0) [
        | inl (fd, e) ↦ ground (arith, e, is_buffered-register path q fd m)
        | inr (n, e) ↦ ground (arith, e)
      ]

  open_local-More :
      (path : Bytes) (flags : ℕ) (m : Manager) (s : P.State)
      → More path m (open_local P path flags m s).1
  unfolding open_local
  open_local-More path flags m s q h =
      elim (SysResult-cases (P.open_file (Manager.local_path m path) flags s).0) [
        | inl (fd, e) ↦ ground (arith, e, is_buffered-register path q fd m)
        | inr (n, e) ↦ ground (arith, e)
      ]

  open_file-More :
      (path : Bytes) (flags : ℕ) (m : Manager) (s : P.State)
      → More path m (open_file P path flags m s).1
  unfolding open_file
  open_file-More path flags m s q h = ground (
    arith,
    open_local-More path flags m s q,
    open_local-More path flags m (Manager.copy_secondary_to_local P path m s).1 q,
  )

  module _ (fuel : ℕ) (junk : Junk) where
    abbrev ServerFewer : Server P → Server P → Type 0
    ServerFewer v w = Fewer v.md_manager w.md_manager

    abbrev AddsNone : Method → Type 0
    AddsNone m = adds m ≡ false

    handlers-Fewer : MovesTables P fuel junk AddsNone ServerFewer
    unfolding adds Manager.close Files.file_flush Manager.file_flush
    handlers-Fewer = record {
      fs = λ v s q h. h;
      unlink = λ ok a v. elim (unlink-md_manager P a v) [
        | inl e ↦ rw e (λ q h. h)
        | inr e ↦ rw e (unregister-Fewer a v.md_manager v.fs)
      ];
      rename = λ ok a b v. rw (rename-md_manager P fuel a b v) (λ q h. h);
      open_file = λ ok a b v. ground arith;
      create = λ ok a b c v. ground arith;
      release = λ ok a b v. rw (release-md_manager P a b v) (unregister_fd-Fewer a b v.md_manager);
      file_flush = λ ok a v. unregister-Fewer a v.md_manager v.fs;
      local_file_export = λ ok v. rw (local_file_export-md_manager P v) (λ q h. h);
    }

    abbrev Opens : Bytes → Server P → Reply Response × Server P → Type 0
    Opens path v (r, w) = More path v.md_manager w.md_manager

    refused-Opens : (path : Bytes) (v : Server P) → Opens path v (error_reply, v)
    refused-Opens path v q h = ground arith

    create-Opens :
        (path : Bytes) (b c : ℕ) (v : Server P)
        → Opens path v (reply P fuel junk (code_reply P fuel junk) (Files.create P path b c) v)
    unfolding Files.create Exporter.unregister
    create-Opens path b c v q h = ground (arith, create-More path b c v.md_manager v.fs q)

    open_file-Opens :
        (path : Bytes) (b : ℕ) (v : Server P)
        → Opens path v (reply P fuel junk (code_reply P fuel junk) (Files.open_file P path b) v)
    unfolding Files.open_file Files.open_registered Exporter.unregister
    open_file-Opens path b v q h = ground (arith, open_file-More path b v.md_manager v.fs q)

    -- A path is open after a request only if it was open before, or if the request may open it.
    pub is_buffered-dispatch :
        (m : Method) (params : List Param) (v : Server P) (q : Bytes)
        → is_buffered
            (dispatch P fuel junk (record { method = m; params = params }) v).1.md_manager
            q
          ≡ true
        → (may_open m params q || is_buffered v.md_manager q) ≡ true
    unfolding dispatch dispatch_to may_open adds
    is_buffered-dispatch Method.create (text path ∷ params) v q h =
        let stays = refused-Opens path in
        (signed_arg-Moves P (Opens path) stays _ _ (λ b.
            natural_arg-Moves P (Opens path) stays _ _
              (λ c. record { at = λ _. create-Opens path (pattern_of b) c }))).at
          params v q h
    is_buffered-dispatch Method.open_file (text path ∷ params) v q h =
        (signed_arg-Moves P (Opens path) (refused-Opens path) _ _
            (λ b. record { at = λ _. open_file-Opens path (pattern_of b) })).at
          params v q h
    is_buffered-dispatch Method.create params v q h = h
    is_buffered-dispatch Method.open_file params v q h = h
    is_buffered-dispatch m params v q h =
        let req : Request = record { method = m; params = params } in
        dispatch-Moves P fuel junk AddsNone ServerFewer handlers-Fewer req refl v q h
