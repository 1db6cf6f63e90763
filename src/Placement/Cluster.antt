-- ===== src/Placement/Cluster.antt =====
-- Any number of clients of src/cbb/burst_buffer_client.h over the servers.
use cbb.Prelude.{ap, sym, ℕ, ◌≡◌, ◌∙◌, true, false, ◌⊎◌, inl, inr, [], Option, some, arith}
use cbb.Text.{Bytes}
use cbb.Posix.{Posix}
use cbb.StdMap.{lookup}
use cbb.Manager.{Manager, is_buffered}
use cbb.Server.{Server}
use cbb.SelectServer.{SelectServer}
use cbb.Client.{Network, Client, to_u16}
use cbb.Client.Operations.{
  Operation, after, getting_attr, reading_link, making_dir, unlinking, removing_dir, symlinking,
  renaming, linking, setting_xattr, changing_mode, changing_owner, truncating, accessing,
  setting_times, getting_xattr, listing_xattr, removing_xattr, getting_file_attr, getting_stat_fs,
  opening, creating, reading, writing, flushing, releasing, syncing, truncating_file, syncing_dir,
  locking, reading_dir, prefetching, flushing_file, exporting, reading_ahead,
}
use cbb.Dispatch.Handlers.{Junk}
use cbb.System.{Delivers}
use cbb.Placement.{Isolates, IsHome, IsPlaced}
use cbb.Placement.Names
use cbb.Placement.Attributes
use cbb.Placement.Operations

module _ (P : Posix) (fuel : ℕ) (junk : Junk) (N : Network)
    (server_at : N.World → Bytes → ℕ → Option (Server P)) (D : Delivers P fuel junk N server_at)
    (I : Isolates P N server_at) where
  after_places :
      (op : Operation) (servers : SelectServer) (c : Client N)
      → c.select_server ≡ servers
      → IsPlaced P N server_at servers c.world
      → IsPlaced P N server_at servers (after N op c).world
  unfolding after
  after_places (getting_attr path) =
      (Names.get_attr-KeepsPlaces P fuel junk N server_at D I path).places
  after_places (reading_link path size) =
      (Names.read_link-KeepsPlaces P fuel junk N server_at D I path size).places
  after_places (making_dir path mode e) =
      (Names.mk_dir-KeepsPlaces P fuel junk N server_at D I path mode e).places
  after_places (unlinking path e) =
      (Names.unlink-KeepsPlaces P fuel junk N server_at D I path e).places
  after_places (removing_dir path e) =
      (Names.rm_dir-KeepsPlaces P fuel junk N server_at D I path e).places
  after_places (symlinking path link) =
      (Names.symlink-KeepsPlaces P fuel junk N server_at D I path link).places
  after_places (renaming old_path new_path) =
      (Names.rename-KeepsPlaces P fuel junk N server_at D I old_path new_path).places
  after_places (linking path newpath) =
      (Names.link-KeepsPlaces P fuel junk N server_at D I path newpath).places
  after_places (setting_xattr path name value size flags) =
      (Names.set_xattr-KeepsPlaces P fuel junk N server_at D I path name value size flags).places
  after_places (changing_mode path mode) =
      (Attributes.chmod-KeepsPlaces P fuel junk N server_at D I path mode).places
  after_places (changing_owner path uid gid) =
      (Attributes.chown-KeepsPlaces P fuel junk N server_at D I path uid gid).places
  after_places (truncating path size) =
      (Attributes.truncate-KeepsPlaces P fuel junk N server_at D I path size).places
  after_places (accessing path mode) =
      (Attributes.access-KeepsPlaces P fuel junk N server_at D I path mode).places
  after_places (setting_times path time0 time1) =
      (Attributes.utimens-KeepsPlaces P fuel junk N server_at D I path time0 time1).places
  after_places (getting_xattr path name value size) =
      (Attributes.get_xattr-KeepsPlaces P fuel junk N server_at D I path name value size).places
  after_places (listing_xattr path list size) =
      (Attributes.list_xattr-KeepsPlaces P fuel junk N server_at D I path list size).places
  after_places (removing_xattr path name) =
      (Attributes.remove_xattr-KeepsPlaces P fuel junk N server_at D I path name).places
  after_places (getting_file_attr path fd) =
      (Attributes.fget_attr-KeepsPlaces P fuel junk N server_at D I path fd).places
  after_places (getting_stat_fs path) =
      (Attributes.stat_fs-KeepsPlaces P fuel junk N server_at D I path).places
  after_places (opening path flags) =
      (Operations.open_file-KeepsPlaces P fuel junk N server_at D I path flags).places
  after_places (creating path flags mode) =
      (Operations.create-KeepsPlaces P fuel junk N server_at D I path flags mode).places
  after_places (reading file size offset) =
      (Operations.read-KeepsPlaces P fuel junk N server_at D I file size offset).places
  after_places (writing file buf offset) =
      (Operations.write-KeepsPlaces P fuel junk N server_at D I file buf offset).places
  after_places (flushing file) =
      (Operations.flush-KeepsPlaces P fuel junk N server_at D I file).places
  after_places (releasing file) =
      (Operations.release-KeepsPlaces P fuel junk N server_at D I file).places
  after_places (syncing file datasync) =
      (Operations.fsync-KeepsPlaces P fuel junk N server_at D I file datasync).places
  after_places (truncating_file file size) =
      (Operations.ftruncate-KeepsPlaces P fuel junk N server_at D I file size).places
  after_places (syncing_dir path datasync e) =
      (Operations.fsync_dir-KeepsPlaces P fuel junk N server_at D I path datasync e).places
  after_places (locking path file) =
      (Operations.lock-KeepsPlaces P fuel junk N server_at D I path file).places
  after_places (reading_dir path offset type e) =
      (Operations.read_dir-KeepsPlaces P fuel junk N server_at D I path offset type e).places
  after_places (prefetching path) =
      (Operations.file_prev_read-KeepsPlaces P fuel junk N server_at D I path).places
  after_places (flushing_file path) =
      (Operations.file_flush-KeepsPlaces P fuel junk N server_at D I path).places
  after_places (exporting e) =
      (Operations.local_file_export-KeepsPlaces P fuel junk N server_at D I e).places
  after_places (reading_ahead e) =
      (Operations.thread_call-KeepsPlaces P fuel junk N server_at D I e).places

  -- The servers of a world whose clients share one selection of servers: any client does any operation,
  -- and servers may be started with an empty table, go away, or work on without a request.
  pub data Cluster (servers : SelectServer) (start : N.World) : N.World → Type 0 where
    here : Cluster servers start start
    act :
        {w : N.World}
        → Cluster servers start w
        → (op : Operation) (c : Client N) → c.world ≡ w
        → c.select_server ≡ servers
        → Cluster servers start (after N op c).world
    elapse :
        {w : N.World}
        → Cluster servers start w
        → (w' : N.World)
        → ((host : Bytes) (port : ℕ) (v' : Server P)
            → server_at w' host port ≡ some v'
            → (v'.md_manager.table ≡ [])
              ⊎ ((v : Server P) × (server_at w host port ≡ some v)
                  × (v'.md_manager ≡ v.md_manager)))
        → Cluster servers start w'

  is_buffered_empty : (m : Manager) (path : Bytes) → m.table ≡ [] → is_buffered m path ≡ false
  unfolding is_buffered lookup
  is_buffered_empty m path e = rw e

  cluster-IsPlaced :
      (servers : SelectServer) (start w : N.World)
      → IsPlaced P N server_at servers start
      → Cluster servers start w
      → IsPlaced P N server_at servers w
  cluster-IsPlaced servers start _ placed here = placed
  cluster-IsPlaced servers start _ placed (act {w} run op c same selects) =
      after_places op servers c selects (rw same (cluster-IsPlaced servers start w placed run))
  cluster-IsPlaced servers start _ placed (elapse {w} run w' carried) =
      λ host port v' path at opened. elim (carried host port v' at) [
        | inl empty ↦ ground (arith, is_buffered_empty v'.md_manager path empty)
        | inr (v, before, same) ↦
            cluster-IsPlaced servers start w placed run host port v path before
              (rw (sym same) opened)
      ]

  -- A path is open on one server at most, the one that the clients select for it: whatever operations any
  -- number of clients do, one after the other, all with one selection of servers, from a time at which
  -- no server has a path open, while servers may be started and stopped. A request reaches the server
  -- at its address and no other.
  pub is_buffered-IsHome :
      (servers : SelectServer) (start w : N.World) (host host' : Bytes) (port port' : ℕ)
      (v v' : Server P) (path : Bytes)
      → ((h : Bytes) (p : ℕ) (u : Server P)
          → server_at start h p ≡ some u
          → u.md_manager.table ≡ [])
      → Cluster servers start w
      → server_at w host port ≡ some v
      → server_at w host' port' ≡ some v'
      → is_buffered v.md_manager path ≡ true
      → is_buffered v'.md_manager path ≡ true
      → IsHome servers path host port × (host' ≡ host) × (port' ≡ port)
  is_buffered-IsHome servers start w host host' port port' v v' path empty run at at' opened
        opened' =
      let placed =
        cluster-IsPlaced servers start w
          (λ h p u q there o. ground (arith, is_buffered_empty u.md_manager q (empty h p u there)))
          run in
      let (info, e, h, p) = placed host port v path at opened in
      let (info', e', h', p') = placed host' port' v' path at' opened' in
      let same : info' ≡ info = ground (arith, e, e') in
      (
        (info, e, h, p),
        sym h' ∙ ap (λ i. i.host) same ∙ h,
        sym p' ∙ ap (λ i. to_u16 i.port) same ∙ p,
      )
