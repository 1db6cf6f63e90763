-- ===== src/Placement/Operations.antt =====
-- The operations of src/cbb/burst_buffer_client.cc on open files keep the placement.
use cbb.Text.Find.{eqb_iff}
use cbb.Server.ReadDir.{Listed}
use cbb.StdMap.{Map}
use cbb.SelectServer.{ServerInfo}
use cbb.Prelude.{arith, ◌≡◌, ◌∙◌, ◌∙◌, ◌∷◌, pos, [], List, ℕ, ℤ, refl, Option}
use cbb.Text.{Bytes}
use cbb.Posix.{Posix}
use cbb.Common.{dir_secondary, ReadDirType, Error}
use cbb.Server.{Server}
use cbb.Client.{
  raw, to_u16, num, text, call_all, client_call, Method, Client, Request, Network, M, pure, call_at,
  ◌>>=◌,
}
use cbb.Client.Files
use cbb.Client.Prefetch
use cbb.Client.Files.{File}
use cbb.Dispatch.Handlers.{Junk}
use cbb.System.{Delivers}
use cbb.Placement.{Isolates, KeepsPlaces}
use cbb.Placement.Calls.{
  same-KeepsPlaces, call_at-KeepsPlaces, call_all-KeepsPlaces, client_call-KeepsPlaces, OpensNone,
  pure-KeepsPlaces, bind-KeepsPlaces, code_at-KeepsPlaces,
}
use cbb.Placement.Tables.{may_open}

module _ (P : Posix) (fuel : ℕ) (junk : Junk) (N : Network)
    (server_at : N.World → Bytes → ℕ → Option (Server P)) (D : Delivers P fuel junk N server_at)
    (I : Isolates P N server_at) where
  abbrev Keeps : {A : Type 0} → M N A → Type 0
  Keeps m = KeepsPlaces P N server_at m

  abbrev then_do :
      {A B : Type 0} (m : M N A) (f : A → M N B)
      → Keeps m
      → ((a : A) → Keeps (f a))
      → Keeps (m >>= f)
  then_do = bind-KeepsPlaces P fuel junk N server_at D I

  abbrev done : {A : Type 0} (a : A) → Keeps (pure a)
  done = pure-KeepsPlaces P fuel junk N server_at D I

  -- Open and Create call the server of the path, and no other.
  open_file_world :
      (path : Bytes) (flags : ℤ) (c : Client N)
      → let req : Request = record {
        method = Method.open_file;
        params = text path ∷ num flags ∷ [];
      } in
        ((Files.open_file N path flags c).1.world ≡ (call_at N path req c).1.world)
        × ((Files.open_file N path flags c).1.select_server
            ≡ (call_at N path req c).1.select_server)
  unfolding Files.open_file call_at Files.start_prev_file_read
  open_file_world path flags c = ground arith

  create_world :
      (path : Bytes) (flags : ℤ) (mode : ℕ) (c : Client N)
      → let req : Request = record {
        method = Method.create;
        params = text path ∷ num flags ∷ num (pos mode) ∷ [];
      } in
        (Files.create N path flags mode c).1 ≡ (call_at N path req c).1
  unfolding Files.create call_at
  create_world path flags mode c = ground arith

  pub open_file-KeepsPlaces : (path : Bytes) (flags : ℤ) → Keeps (Files.open_file N path flags)
  unfolding may_open
  open_file-KeepsPlaces path flags =
      let req : Request = record {
        method = Method.open_file;
        params = text path ∷ num flags ∷ [];
      } in
      let called =
        call_at-KeepsPlaces P fuel junk N server_at D I path req
          (λ q may. (eqb_iff q path).0 may) in
      record {
        selects = λ c. (open_file_world path flags c).1 ∙ called.selects c;
        places = λ servers c h placed.
            rw (open_file_world path flags c).0 (called.places servers c h placed);
      }

  pub create-KeepsPlaces :
      (path : Bytes) (flags : ℤ) (mode : ℕ) → Keeps (Files.create N path flags mode)
  unfolding may_open
  create-KeepsPlaces path flags mode =
      same-KeepsPlaces P fuel junk N server_at D I _ _ (create_world path flags mode)
        (call_at-KeepsPlaces P fuel junk N server_at D I path _ (λ q may. (eqb_iff q path).0 may))

  -- A call on an open file.
  abbrev on_file :
      (file : File) (req : Request)
      → OpensNone P fuel junk N server_at D I req
      → Keeps (client_call N file.bb_host file.bb_port req)
  on_file file = client_call-KeepsPlaces P fuel junk N server_at D I file.bb_host file.bb_port

  read_world :
      (file : File) (size : ℕ) (offset : ℤ) (c : Client N)
      → (Files.read N file size offset c).1
        ≡ (client_call N file.bb_host file.bb_port
            (record {
              method = Method.read;
              params = text file.path ∷ num (pos file.fd_org) ∷ num (pos size) ∷ num offset ∷ [];
            })
            c).1
  unfolding Files.read
  read_world file size offset c = ground arith

  pub read-KeepsPlaces :
      (file : File) (size : ℕ) (offset : ℤ) → Keeps (Files.read N file size offset)
  unfolding may_open
  read-KeepsPlaces file size offset =
      same-KeepsPlaces P fuel junk N server_at D I _ _ (read_world file size offset)
        (on_file file _ (λ q. refl))

  write_world :
      (file : File) (buf : Bytes) (offset : ℤ) (c : Client N)
      → (Files.write N file buf offset c).1
        ≡ (client_call N file.bb_host file.bb_port
            (record {
              method = Method.write;
              params = text file.path ∷ num (pos file.fd_org) ∷ num offset ∷ raw buf ∷ [];
            })
            c).1
  unfolding Files.write
  write_world file buf offset c = ground arith

  pub write-KeepsPlaces :
      (file : File) (buf : Bytes) (offset : ℤ) → Keeps (Files.write N file buf offset)
  unfolding may_open
  write-KeepsPlaces file buf offset =
      same-KeepsPlaces P fuel junk N server_at D I _ _ (write_world file buf offset)
        (on_file file _ (λ q. refl))

  pub flush-KeepsPlaces : (file : File) → Keeps (Files.flush N file)
  unfolding Files.flush may_open
  flush-KeepsPlaces file = then_do _ _ (on_file file _ (λ q. refl)) (λ r. done _)

  pub release-KeepsPlaces : (file : File) → Keeps (Files.release N file)
  unfolding Files.release may_open
  release-KeepsPlaces file = then_do _ _ (on_file file _ (λ q. refl)) (λ r. done _)

  pub fsync-KeepsPlaces : (file : File) (datasync : ℤ) → Keeps (Files.fsync N file datasync)
  unfolding Files.fsync may_open
  fsync-KeepsPlaces file datasync = then_do _ _ (on_file file _ (λ q. refl)) (λ r. done _)

  pub ftruncate-KeepsPlaces : (file : File) (size : ℤ) → Keeps (Files.ftruncate N file size)
  unfolding Files.ftruncate may_open
  ftruncate-KeepsPlaces file size = then_do _ _ (on_file file _ (λ q. refl)) (λ r. done _)

  -- A call to all servers.
  abbrev on_all :
      (req : Request) (error : Error)
      → OpensNone P fuel junk N server_at D I req
      → Keeps (call_all N req error)
  on_all = call_all-KeepsPlaces P fuel junk N server_at D I

  pub fsync_dir-KeepsPlaces :
      (path : Bytes) (datasync : ℤ) (e : Error) → Keeps (Files.fsync_dir N path datasync e)
  unfolding Files.fsync_dir may_open
  fsync_dir-KeepsPlaces path datasync e = on_all _ e (λ q. refl)

  pub lock-KeepsPlaces : (path : Bytes) (file : File) → Keeps (Files.lock N path file)
  unfolding Files.lock may_open
  lock-KeepsPlaces path file = code_at-KeepsPlaces P fuel junk N server_at D I path _ (λ q. refl)

  read_dir_each-KeepsPlaces :
      (infos : List ServerInfo) (req : Request) (error : Error) (stats : Map Listed)
      → OpensNone P fuel junk N server_at D I req
      → Keeps (Files.read_dir_each N infos req error stats)
  unfolding Files.read_dir_each
  read_dir_each-KeepsPlaces [] req error stats none_open = done _
  read_dir_each-KeepsPlaces (info ∷ infos) req error stats none_open =
      then_do _ _
        (client_call-KeepsPlaces P fuel junk N server_at D I info.host (to_u16 info.port) req
          none_open)
        (λ r. read_dir_each-KeepsPlaces infos req r.code _ none_open)

  pub read_dir-KeepsPlaces :
      (path : Bytes) (offset : ℤ) (type : ReadDirType) (e : Error)
      → Keeps (Files.read_dir N path offset type e)
  unfolding Files.read_dir may_open
  read_dir-KeepsPlaces path offset type e = record {
    selects =
        λ c. (read_dir_each-KeepsPlaces c.select_server.server_list _ e [] (λ q. refl)).selects c;
    places = λ servers c h placed.
        (read_dir_each-KeepsPlaces c.select_server.server_list _ e [] (λ q. refl)).places servers c
          h placed;
  }

  pub file_prev_read-KeepsPlaces : (path : Bytes) → Keeps (Prefetch.file_prev_read N path)
  unfolding Prefetch.file_prev_read may_open
  file_prev_read-KeepsPlaces path =
      code_at-KeepsPlaces P fuel junk N server_at D I path _ (λ q. refl)

  pub file_flush-KeepsPlaces : (path : Bytes) → Keeps (Prefetch.file_flush N path)
  unfolding Prefetch.file_flush may_open
  file_flush-KeepsPlaces path = code_at-KeepsPlaces P fuel junk N server_at D I path _ (λ q. refl)

  pub local_file_export-KeepsPlaces : (e : Error) → Keeps (Prefetch.local_file_export N e)
  unfolding Prefetch.local_file_export may_open
  local_file_export-KeepsPlaces e = on_all _ e (λ q. refl)

  prefetch_all-KeepsPlaces : (paths : List Bytes) → Keeps (Prefetch.prefetch_all N paths)
  unfolding Prefetch.prefetch_all
  prefetch_all-KeepsPlaces [] = done tt
  prefetch_all-KeepsPlaces (path ∷ paths) =
      then_do _ _ (file_prev_read-KeepsPlaces path) (λ e. prefetch_all-KeepsPlaces paths)

  pub thread_call-KeepsPlaces : (e : Error) → Keeps (Prefetch.thread_call N e)
  unfolding Prefetch.thread_call
  thread_call-KeepsPlaces e = record {
    selects = λ c.
        (then_do _ _ (read_dir-KeepsPlaces c.prev_read_dir (pos 0) dir_secondary e)
            (λ r. then_do _ _ (prefetch_all-KeepsPlaces _) (λ u. done _))).selects
          c;
    places = λ servers c h placed.
        (then_do _ _ (read_dir-KeepsPlaces c.prev_read_dir (pos 0) dir_secondary e)
            (λ r. then_do _ _ (prefetch_all-KeepsPlaces _) (λ u. done _))).places
          servers c h placed;
  }
