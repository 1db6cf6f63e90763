-- ===== src/Examples/Paths.antt =====
-- Paths, settings, the ring of servers, the hash and the thread.
use cbb.Hash.Signed.{calc_hash_sha1}
use cbb.Text.Find.{eqb_iff}
use cbb.Hash.Digest.{calc_hash_md5-le-max_key}
use cbb.SelectServer.Routing.{get_info-init}
use cbb.Common.VirtualExt.{remove_virtual_ext-create}
use cbb.Hash.Ring.{get_node-create}
use cbb.Settings.Load.{load_interval_time}
use cbb.ThreadLoop.{
  leave, spawn, set_loop, here, next, lost_thread, start, spawned, returned, finished, Threads,
  Reach,
}
use cbb.Text.{eqb, Bytes}
use cbb.Settings.{load, Tree, Settings}
use cbb.SelectServer.{get_info, init, ServerInfo, SelectServer, HashCalc}
use cbb.Hash.{md5_key_bits, max_key, get_node, NodeCircleInfo, calc_hash_md5}
use cbb.Common.{
  create_virtual_link, remove_virtual_ext, create_virtual_symlink, is_virtual_link, bytes,
  is_virtual_symlink,
}
use cbb.Prelude.{
  ◌^◌, negsuc, ◌-◌, ◌*◌, ◌≢◌, arith, ◌≤◌, arith, get_elem?, ◌∷◌, ℤ, ℕ, true, none, false, some, pos,
  length, if◌then◌else◌, Option, ◌≡◌, [], List, refl,
}
use cbb.Hash
use cbb.Manager.{Manager}
use Prim.Native.Nat.{min}

remove_virtual_ext-create_example :
    (is_virtual_symlink (create_virtual_symlink (bytes "/d/f")) ≡ true)
    × (remove_virtual_ext (create_virtual_symlink (bytes "/d/f")) ≡ bytes "/d/f")
    × (is_virtual_symlink (create_virtual_link (bytes "/d/f")) ≡ false)
    × (is_virtual_link (create_virtual_link (bytes "/d/f")) ≡ true)
    × (remove_virtual_ext (create_virtual_link (bytes "/d/f")) ≡ bytes "/d/f")
unfolding is_virtual_symlink is_virtual_link
remove_virtual_ext-create_example = remove_virtual_ext-create (bytes "/d/f") (refl, refl)

abbrev roots : Manager
roots = record {
  table = [];
  local_storage_root_path = bytes "/ssd";
  secondary_storage_root_path = bytes "/lustre";
}

-- Three servers on the ring of two bits: one key for each, the last key 3.
get_node-create_example :
    (circle : List (NodeCircleInfo ℕ)) × (Hash.create 2 (10 ∷ 20 ∷ 30 ∷ []) ≡ some circle)
    × (get_node circle 2 ≡ some 20)
get_node-create_example =
    get_node-create 2 2 2 (10 ∷ 20 ∷ 30 ∷ []) refl (ground arith) (ground arith)

calc_hash_md5-le-max_key_example :
    calc_hash_md5 (some (255 ∷ 0 ∷ 1 ∷ 2 ∷ 3 ∷ 4 ∷ 5 ∷ 6 ∷ 7 ∷ 8 ∷ 9 ∷ 10 ∷ 11 ∷ 12 ∷ 13 ∷ 14 ∷ []))
    ≤ max_key md5_key_bits
calc_hash_md5-le-max_key_example =
    calc_hash_md5-le-max_key
      (some (255 ∷ 0 ∷ 1 ∷ 2 ∷ 3 ∷ 4 ∷ 5 ∷ 6 ∷ 7 ∷ 8 ∷ 9 ∷ 10 ∷ 11 ∷ 12 ∷ 13 ∷ 14 ∷ []))
      (refl, ground arith)

abbrev blank_settings : Settings
blank_settings = record {
  server_host = [];
  server_port = pos 0;
  server_thread = pos 0;
  server_local_strage_path = [];
  server_secondary_storage_path = [];
  server_interval_time = pos 1;
  client_hosts = bytes "a" ∷ bytes "b" ∷ [];
  client_port = pos 9090;
}

-- A hash of two bits: the length of the path, up to 3.
abbrev length_hash : HashCalc
length_hash = record { key_bits = 2; calc_hash = λ path. min (length path) 3 }

get_info-init_example :
    (s : SelectServer) × (info : ServerInfo) × (init blank_settings length_hash ≡ some s)
    × (get_info s (bytes "/f") ≡ some info)
    × (get_elem? s.server_list 1 ≡ some info)
get_info-init_example =
    get_info-init blank_settings length_hash (bytes "/f") 1 refl (ground arith) (ground arith)
      (refl, (refl, tt)) refl

-- The only number that this reads is "9090".
abbrev to_int : Bytes → Option ℤ
to_int text = if eqb text (bytes "9090") then some (pos 9090) else none

abbrev server_tree : Tree
server_tree key =
    if eqb key (bytes "Server.secondary_storage_path")
    then some (bytes "/lustre")
    else if eqb key (bytes "Server.local_strage_path")
    then some (bytes "/ssd")
    else if eqb key (bytes "Server.host")
    then some (bytes "a")
    else some (bytes "9090")

abbrev server_tree_60 : Tree
server_tree_60 key =
    if eqb key (bytes "Server.interval_time") then some (bytes "60") else server_tree key

server_tree-same :
    (key : Bytes) → key ≢ bytes "Server.interval_time" → server_tree key ≡ server_tree_60 key
server_tree-same key h = ground (arith, eqb_iff key (bytes "Server.interval_time"))

load_interval_time_example :
    load to_int (some server_tree) true blank_settings
    ≡ load to_int (some server_tree_60) true blank_settings
load_interval_time_example =
    load_interval_time to_int server_tree server_tree_60 blank_settings server_tree-same

-- The thread runs before the creator sets `is_loop`.
abbrev lost : Threads
lost = record { creator = spawned; worker = returned; is_loop = false; calls = 0 }

abbrev set_too_late : Threads
set_too_late = record { creator = finished; worker = returned; is_loop = true; calls = 0 }

lost-Reach : Reach start lost
lost-Reach = next (next here (spawn start refl)) (leave _ refl refl)

lost_thread_example : (set_too_late.calls ≡ 0) × (set_too_late.worker ≡ returned)
lost_thread_example = lost_thread lost-Reach refl refl (next here (set_loop lost refl))

-- A first byte of 128 or more makes the hash of SHA1 negative.
calc_hash_sha1_negative : calc_hash_sha1 (2 ^ 31 ∷ 0 ∷ 0 ∷ 0 ∷ 0 ∷ []) ≡ negsuc (128 * 2 ^ 152 - 1)
unfolding calc_hash_sha1
calc_hash_sha1_negative = refl
