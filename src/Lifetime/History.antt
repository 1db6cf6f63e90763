-- ===== src/Lifetime/History.antt =====
-- What the log of a server of src/cbb/burst_buffer.cc says of the table of open descriptors in
-- src/cbb/meta_data_manager.h.
use cbb.Prelude.{
  ap, Bool-cases, ◌⊎◌, ℕ, ◌≡◌, refl, arith, Bool, true, false, not, ◌&&◌, ◌||◌, List, [], ◌∷◌, inl,
  inr,
}
use cbb.Text.{Bytes, eqb}
use cbb.StdMap.{lookup, set_has}
use cbb.Posix.{Posix}
use cbb.Exporter
use cbb.Manager
use cbb.Manager.{Manager}
use cbb.Manager.Table.{holds, holds-create, holds-open_file, holds-close, holds-unregister}
use cbb.Server.Files
use cbb.Server.Names
use cbb.Server.{Server, Reply, error_reply}
use cbb.Client.{Method, Param, Request, Response, text, num}
use cbb.Dispatch.Arguments.{natural_arg-Moves, signed_arg-Moves}
use cbb.Dispatch.Frame.{reply-second, MovesTables, dispatch-Moves}
use cbb.Dispatch.Handlers.{Junk, dispatch, dispatch_to, pattern_of, reply, code_reply}
use cbb.Lifetime.{Log, Reach, here, serve, watch, outside}
use cbb.Lifetime.Managers.{
  release-md_manager, unlink-md_manager, rename-md_manager, local_file_export-md_manager,
}
use cbb.Lifetime.Usage.{replies, opens, closes, unlinks, in_use, unlinked}

-- The requests that leave the table of open descriptors.
leaves : Method → Bool
leaves Method.create = false
leaves Method.open_file = false
leaves Method.release = false
leaves Method.file_flush = false
leaves Method.unlink = false
leaves _ = true

module _ (P : Posix) where
  abbrev Leaves : Server P → Server P → Type 0
  Leaves v w = w.md_manager ≡ v.md_manager

  module _ (fuel : ℕ) (junk : Junk) (q : Bytes) (x : ℕ) where
    abbrev Quiet : Method → Type 0
    Quiet m = leaves m ≡ true

    handlers-Leaves : MovesTables P fuel junk Quiet Leaves
    unfolding leaves
    handlers-Leaves = record {
      fs = λ v s. refl;
      unlink = λ ok a v. ground arith;
      rename = λ ok a b v. rename-md_manager P fuel a b v;
      open_file = λ ok a b v. ground arith;
      create = λ ok a b c v. ground arith;
      release = λ ok a b v. ground arith;
      file_flush = λ ok a v. ground arith;
      local_file_export = λ ok v. local_file_export-md_manager P v;
    }

    abbrev in_table : Server P → Bool
    in_table v = holds v.md_manager q x

    -- The table gains just the descriptor of the reply, under one path.
    abbrev Gains : Bytes → Server P → Reply Response × Server P → Type 0
    Gains path v (r, w) = in_table w ≡ ((eqb q path && replies r x) || in_table v)

    refused-Gains : (path : Bytes) (v : Server P) → Gains path v (error_reply, v)
    refused-Gains path v = ground arith

    create-Gains :
        (path : Bytes) (b c : ℕ) (v : Server P)
        → Gains path v (reply P fuel junk (code_reply P fuel junk) (Files.create P path b c) v)
    unfolding Files.create Exporter.unregister
    create-Gains path b c v = ground (arith, holds-create P path q b c x v.md_manager v.fs)

    open_file-Gains :
        (path : Bytes) (b : ℕ) (v : Server P)
        → Gains path v (reply P fuel junk (code_reply P fuel junk) (Files.open_file P path b) v)
    unfolding Files.open_file Files.open_registered Exporter.unregister
    open_file-Gains path b v = ground (arith, holds-open_file P path q b x v.md_manager v.fs)

    create-Accounted :
        (params : List Param) (v : Server P)
        → in_table (dispatch_to P fuel junk Method.create params v).1 ≡ (
            opens Method.create params (dispatch_to P fuel junk Method.create params v).0 q x
            || in_table v)
    unfolding dispatch_to opens
    create-Accounted (text path ∷ params) v =
        let stays = refused-Gains path in
        (signed_arg-Moves P (Gains path) stays _ _ (λ b.
            natural_arg-Moves P (Gains path) stays _ _
              (λ c. record { at = λ _. create-Gains path (pattern_of b) c }))).at
          params v
    create-Accounted _ v = refl

    open_file-Accounted :
        (params : List Param) (v : Server P)
        → in_table (dispatch_to P fuel junk Method.open_file params v).1 ≡ (
            opens Method.open_file params (dispatch_to P fuel junk Method.open_file params v).0 q x
            || in_table v)
    unfolding dispatch_to opens
    open_file-Accounted (text path ∷ params) v =
        (signed_arg-Moves P (Gains path) (refused-Gains path) _ _
            (λ b. record { at = λ _. open_file-Gains path (pattern_of b) })).at
          params v
    open_file-Accounted _ v = refl

    release-Accounted :
        (params : List Param) (v : Server P)
        → in_table (dispatch_to P fuel junk Method.release params v).1
          ≡ (not (closes Method.release params q x) && in_table v)
    unfolding dispatch_to closes
    release-Accounted (text path ∷ num fd ∷ params) v = ground (
      arith,
      reply-second P fuel junk (code_reply P fuel junk) (Files.release P path (pattern_of fd)) v,
      release-md_manager P path (pattern_of fd) v,
      holds-close P path q (pattern_of fd) x v.md_manager v.fs,
    )
    release-Accounted _ v = refl

    file_flush-Accounted :
        (params : List Param) (v : Server P)
        → in_table (dispatch_to P fuel junk Method.file_flush params v).1
          ≡ (not (closes Method.file_flush params q x) && in_table v)
    unfolding dispatch_to closes Files.file_flush Manager.file_flush
    file_flush-Accounted (text path ∷ params) v = holds-unregister P path q x v.md_manager v.fs
    file_flush-Accounted _ v = refl

    -- Unlink takes every descriptor from its path, or none.
    abbrev Drops : List Param → Server P → Server P → Type 0
    Drops params v w =
        (in_table w ≡ in_table v)
        ⊎ (in_table w ≡ (not (unlinks Method.unlink params q) && in_table v))

    unlink-Drops :
        (params : List Param) (v : Server P)
        → Drops params v (dispatch_to P fuel junk Method.unlink params v).1
    unfolding dispatch_to unlinks
    unlink-Drops (text path ∷ params) v =
        let same = reply-second P fuel junk (code_reply P fuel junk) (Names.unlink P path) v in
        elim (unlink-md_manager P path v) [
          | inl e ↦ inl (rw (same, e))
          | inr e ↦ inr (rw (same, e) (holds-unregister P path q x v.md_manager v.fs))
        ]
    unlink-Drops _ v = inl refl

    -- A request that leaves the table.
    quiet :
        (m : Method) (params : List Param) (v : Server P)
        → leaves m ≡ true
        → (dispatch_to P fuel junk m params v).1.md_manager ≡ v.md_manager
    unfolding dispatch
    quiet m params v ok =
        let req : Request = record { method = m; params = params } in
        dispatch-Moves P fuel junk Quiet Leaves handlers-Leaves req ok v

    -- A request does to the table what its reply says, but Unlink may take every descriptor away.
    abbrev Step : Method → List Param → Server P → Reply Response × Server P → Type 0
    Step m params v (r, w) =
        (in_table w ≡ (opens m params r q x || (not (closes m params q x) && in_table v)))
        ⊎ ((unlinks m params q ≡ true) × (in_table w ≡ false))

    request-Step :
        (m : Method) (params : List Param) (v : Server P)
        → Step m params v (dispatch_to P fuel junk m params v)
    unfolding opens closes unlinks leaves
    request-Step Method.create params v = inl (create-Accounted params v)
    request-Step Method.open_file params v = inl (open_file-Accounted params v)
    request-Step Method.release params v = inl (release-Accounted params v)
    request-Step Method.file_flush params v = inl (file_flush-Accounted params v)
    request-Step Method.unlink params v = elim (unlink-Drops params v) [
      | inl e ↦ inl e
      | inr e ↦ elim (Bool-cases (unlinks Method.unlink params q)) [
        | inl u ↦ inr (u, rw (e, u))
        | inr u ↦ inl (rw (e, u))
      ]
    ]
    request-Step m params v = inl (ap (λ n. holds n q x) (quiet m params v refl))

    module _ (v : Server P) (empty : v.md_manager.table ≡ []) where
      starts_empty : in_table v ≡ false
      unfolding lookup set_has
      starts_empty = rw empty

      held_in_use :
          (w : Server P) (log : Log)
          → Reach P fuel junk v log w
          → (not (in_table w) || in_use log q x) ≡ true
      unfolding dispatch in_use
      held_in_use _ _ here = rw starts_empty refl
      held_in_use _ _ (serve {log} {u} run req) =
          ground (arith, held_in_use u log run, request-Step req.method req.params u)
      held_in_use _ _ (watch {log} {u} run e s h) = held_in_use u log run
      held_in_use _ _ (outside {log} {u} run s) = held_in_use u log run

      in_use_held :
          (w : Server P) (log : Log)
          → Reach P fuel junk v log w
          → (unlinked log q || not (in_use log q x) || in_table w) ≡ true
      unfolding dispatch in_use unlinked
      in_use_held _ _ here = refl
      in_use_held _ _ (serve {log} {u} run req) =
          ground (arith, in_use_held u log run, request-Step req.method req.params u)
      in_use_held _ _ (watch {log} {u} run e s h) = in_use_held u log run
      in_use_held _ _ (outside {log} {u} run s) = in_use_held u log run

    -- From an empty table, whatever requests the server gets, whatever its exporter thread copies and
    -- whatever others do to the storages: a descriptor that is registered under a path was given out
    -- by a Create or an Open of that path and was not closed since by a Release or a FileFlush; and
    -- if no Unlink of the path was served, each one given out and not closed is registered.
    pub holds-Reach :
        (v w : Server P) (log : Log)
        → v.md_manager.table ≡ []
        → Reach P fuel junk v log w
        → ((not (holds w.md_manager q x) || in_use log q x) ≡ true)
          × ((unlinked log q || not (in_use log q x) || holds w.md_manager q x) ≡ true)
    holds-Reach v w log empty run = (held_in_use v empty w log run, in_use_held v empty w log run)
