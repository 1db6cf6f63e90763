-- ===== src/Settings.antt =====
-- src/util/settings.h and settings.cc. The ini parser of boost is a parameter: the file as a map
-- from `Section.key` to its text, `none` when it cannot be read, and the conversion to `int`.
pub mod Hosts
pub mod Load
use cbb.Prelude.{
  Bool, true, false, ℤ, pos, List, [], ◌∷◌, ◌++◌, Option, none, some, ◌==◌, if◌then◌else◌,
}
use cbb.Text.{Bytes}
use cbb.Common.{bytes}

pub record Settings : Type 0 where
  pub server_host : Bytes
  pub server_port : ℤ
  pub server_thread : ℤ
  pub server_local_strage_path : Bytes
  pub server_secondary_storage_path : Bytes
  pub server_interval_time : ℤ
  pub client_hosts : List Bytes
  pub client_port : ℤ

-- What `pt::read_ini` gives: the text of each key that the file has.
abbrev pub Tree : Type 0
Tree = Bytes → Option Bytes

-- The items that std::getline with ',' reads: one after the last comma only if it has a byte.
unfoldable pub split_hosts : Bytes → Bytes → List Bytes
split_hosts [] [] = []
split_hosts (c ∷ item) [] = (c ∷ item) ∷ []
split_hosts item (c ∷ text) =
    let next = split_hosts [] text in
    let more = split_hosts (item ++ (c ∷ [])) text in if c == b',' then item ∷ next else more

-- to_array<std::string>
unfoldable pub to_array : Bytes → List Bytes
unfolding split_hosts
to_array str = split_hosts [] str

infixl 5 ◌>>=◌
abbrev ◌>>=◌ : {A B : Type 0} → Option A → (A → Option B) → Option B
none >>= f = none
some a >>= f = f a

module _ (to_int : Bytes → Option ℤ) where
  -- tree.get<int>(path, default)
  abbrev get_int_or : Tree → Bytes → ℤ → ℤ
  get_int_or tree path d = elim (tree path >>= to_int) [ none ↦ d | some n ↦ n ]

  -- The `try` block of the server's settings: `none` is an exception.
  unfoldable pub read_server : Option Tree → Settings → Option Settings
  read_server file s = do
    tree ← file
    host ← tree (bytes "Server.host")
    port ← tree (bytes "Server.port") >>= to_int
    thread ← tree (bytes "Server.thread") >>= to_int
    local ← tree (bytes "Server.local_strage_path")
    secondary ← tree (bytes "Server.secondary_storage_path")
    some (record s {
      server_host = host;
      server_port = port;
      server_thread = thread;
      server_local_strage_path = local;
      server_secondary_storage_path = secondary;
      server_interval_time = get_int_or tree (bytes "Server.secondary_storage_path") (pos 1);
    })

  -- The `try` block of the client's settings.
  unfoldable pub read_client : Option Tree → Settings → Option Settings
  unfolding to_array
  read_client file s = do
    tree ← file
    hosts ← tree (bytes "Client.host")
    port ← tree (bytes "Client.port") >>= to_int
    some (record s { client_hosts = to_array hosts; client_port = port })

  -- Settings::Load: the settings and the result.
  unfoldable pub load : Option Tree → Bool → Settings → Settings × Bool
  unfolding read_server read_client
  load file true s =
      let start : Settings = record s { client_hosts = []; client_port = pos 0 } in
      elim (read_server file start) [
        | some read ↦ (read, true)
        | none ↦ (
          record start {
            server_host = [];
            server_port = pos 0;
            server_thread = pos 0;
            server_local_strage_path = [];
            server_secondary_storage_path = [];
            server_interval_time = pos 1;
          },
          false,
        )
      ]
  load file false s =
      let start : Settings = record s {
        server_host = [];
        server_port = pos 0;
        server_thread = pos 0;
        server_local_strage_path = [];
        server_secondary_storage_path = [];
      } in
      elim (read_client file start) [
        | some read ↦ (read, true)
        | none ↦ (record start { client_hosts = []; client_port = pos 0 }, false)
      ]
