-- ===== src/Examples/Link.antt =====
-- Reading a link of a directory.
use cbb.Posix.Memory.{memory}
use cbb.Common.{ok, bytes}
use cbb.Server.{Server}
use cbb.Posix.{Posix}
use cbb.Manager.{Manager}
use cbb.Prelude.{take, false, []}

abbrev linked : Posix
linked = record memory { readlink = λ d p n. ok (take n (bytes "/ssd/d")) }

abbrev roots : Manager
roots = record {
  table = [];
  local_storage_root_path = bytes "/ssd";
  secondary_storage_root_path = bytes "/lustre";
}

abbrev server : Server linked
server = record {
  md_manager = roots;
  lf_exporter = record { local_files = []; locked = false };
  fs = record { files = []; clock = 0; next = 3; full = false; opened = [] };
}
