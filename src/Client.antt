-- ===== src/Client.antt =====
-- src/cbb/burst_buffer_client.h and .cc: the client of the file system. It sends each operation to
-- the server of the path, or to all servers. The handlers' counterparts are in the child modules.
pub mod Names
pub mod Attributes
pub mod Files
pub mod Prefetch
pub mod Operations
pub mod Retry
pub mod Start
use cbb.Prelude.{
  ℕ, zero, suc, ◌-◌, ◌/◌, ◌%◌, ◌^◌, Bool, true, false, ℤ, pos, negsuc, List, [], ◌∷◌, Option, none,
  some, ◌==◌, if◌then◌else◌,
}
use cbb.Text.{Bytes}
use cbb.Common.{StatVfs, Error, FileStat, TimeSpec}
use cbb.StdMap.{Map}
use cbb.Server.ReadDir.{Listed}
use cbb.SelectServer.{SelectServer, ServerInfo, get_info}

-- CBBMsgPackCode, sent by name.
pub data Method : Type 0 where
  get_attr read_link mk_dir unlink rm_dir symlink rename link chmod chown truncate : Method
  open_file read write stat_fs flush release fsync : Method
  set_xattr get_xattr list_xattr remove_xattr read_dir fsync_dir : Method
  access create ftruncate fget_attr lock utimens : Method
  file_prev_read file_flush local_file_export : Method

pub data Param : Type 0 where
  text : Bytes → Param
  num : ℤ → Param
  raw : Bytes → Param
  time : TimeSpec → Param

pub record Request : Type 0 where
  pub method : Method
  pub params : List Param

-- The parts of the replies that the client reads.
pub record Response : Type 0 where
  pub code : ℤ
  pub file_stat : FileStat
  pub data_text : Bytes
  pub file_stats : Map Listed
  pub stat_vfs : StatVfs

-- What a remote call of msgpack-rpc ends in.
pub data RpcResult : Type 0 where
  answered : Response → RpcResult
  connection_closed system_error timeout_error remote_error : RpcResult

-- The servers behind msgpack-rpc, inet_aton, and the path functions of boost::filesystem.
pub record Network : Type 1 where
  pub World : Type 0
  pub send : Bytes → ℕ → Request → World → RpcResult × World
  pub addr_to_binary : Bytes → ℕ
  pub parent_path : Bytes → Bytes
  pub filename : Bytes → Bytes

-- `g_fuse_mutex` is part of the state.
pub record Client (N : Network) : Type 0 where
  pub world : N.World
  pub select_server : SelectServer
  pub is_locked : Bool
  pub prev_read_dir : Bytes
  pub target_filename : Bytes

-- How an operation ends: with a value, by an exception, by abort(), or waiting for the mutex.
pub data Ended {ℓ} (A : Type ℓ) : Type ℓ where
  ended : A → Ended A
  raised aborted blocked : Ended A

abbrev pub M : Network → Type 0 → Type 0
M N A = Client N → Ended A × Client N

-- The port of a call is a uint16_t.
abbrev pub to_u16 : ℤ → ℕ
to_u16 (pos n) = n % 65536
to_u16 (negsuc n) = 65535 - n % 65536

module _ {N : Network} where
  abbrev pub pure : {A : Type 0} → A → M N A
  pure a c = (ended a, c)

  infixl 5 ◌>>=◌ ◌>>◌
  abbrev pub ◌>>=◌ : {A B : Type 0} → M N A → (A → M N B) → M N B
  ◌>>=◌ m f c =
      let (r, c') = m c in
      elim r [
        | ended a ↦ f a c'
        | raised ↦ (raised, c')
        | aborted ↦ (aborted, c')
        | blocked ↦ (blocked, c')
      ]

  abbrev pub ◌>>◌ : {B : Type 0} → M N (Unit {0}) → M N B → M N B
  m >> k = m >>= λ _. k

module _ (N : Network) where
  open N use {World}

  -- The `while (true)` of MSGPACK_CLIENT_CALL with its counter: `if (--retry_count <= 0) throw`.
  unfoldable pub retry_loop : ℕ → Bytes → ℕ → Request → World → Ended Response × World
  retry_loop (suc (suc count)) host port req w =
      let (r, w') = N.send host port req w in
      let again = retry_loop (suc count) host port req w' in
      elim r [ answered a ↦ (ended a, w') | remote_error ↦ (aborted, w') | _ ↦ again ]
  retry_loop _ host port req w =
      let (r, w') = N.send host port req w in
      elim r [ answered a ↦ (ended a, w') | remote_error ↦ (aborted, w') | _ ↦ (raised, w') ]

  -- MSGPACK_CLIENT_CALL: the mutex is released when the call is answered, and before abort().
  unfoldable pub client_call : Bytes → ℕ → Request → M N Response
  unfolding retry_loop
  client_call host port req c =
      let (r, w) = retry_loop 0 host port req c.world in
      if c.is_locked then (blocked, c) else elim r [
        | ended a ↦ (ended a, record c { world = w })
        | raised ↦ (raised, record c { world = w; is_locked = true })
        | aborted ↦ (aborted, record c { world = w })
        | blocked ↦ (blocked, c)
      ]

  -- GetBurstBuffer, which always succeeds: an assertion of GetInfo aborts.
  unfoldable pub get_burst_buffer : Bytes → M N (Bytes × ℕ)
  unfolding get_info
  get_burst_buffer path c = elim (get_info c.select_server path) [
    | none ↦ (aborted, c)
    | some info ↦ (ended (info.host, to_u16 info.port), c)
  ]

  -- One call to the server of a path.
  unfoldable pub call_at : Bytes → Request → M N Response
  unfolding get_burst_buffer
  call_at path req = do (host, port) ← get_burst_buffer path; client_call host port req

  -- The same call to each server in turn: the last code, `error` before the first.
  unfoldable pub call_each : List ServerInfo → Request → Error → M N Error
  call_each [] req error = pure error
  call_each (info ∷ servers) req error = do
    r ← client_call info.host (to_u16 info.port) req
    call_each servers req r.code

  -- BOOST_FOREACH over select_server_.server_list(); `junk` is the local before it is assigned.
  unfoldable pub call_all : Request → Error → M N Error
  unfolding call_each
  call_all req junk c = call_each c.select_server.server_list req junk c

  -- One call to the server of a path, for its code.
  unfoldable pub code_at : Bytes → Request → M N Error
  unfolding call_at
  code_at path req = do r ← call_at path req; pure r.code

-- S_ISDIR(mode)
abbrev pub s_isdir : ℕ → Bool
s_isdir mode = mode / 4096 % 16 == 4
