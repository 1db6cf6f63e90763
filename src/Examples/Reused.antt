-- ===== src/Examples/Reused.antt =====
-- A descriptor that Unlink has closed, on a server of files in memory.
use cbb.Prelude.{◌≡◌, pos, some, none, refl, arith, ◌∷◌, [], if◌then◌else◌, false}
use cbb.Common.{bytes}
use cbb.Posix.Memory.{Disk, memory, names, text_at, memory-KeepsData}
use cbb.Manager.{Manager, local_path}
use cbb.Manager.Table.{holds}
use cbb.Server.{Server}
use cbb.Client.{Client, ended}
use cbb.Client.Files
use cbb.SelectServer.{ServerInfo}
use cbb.System.{is_at}
use cbb.System.Data.{Ready}
use cbb.System.NewFile.{file_of}
use cbb.System.Reused.{write_reused, unlinked}
use cbb.Examples.System.{junk, network, network-Delivers, roots, server, client, file, disk}

-- The file `f` is open for descriptor 3.
abbrev holding : Server memory
holding = record server {
  md_manager = record roots { table = (bytes "f", 3 ∷ []) ∷ [] };
  fs = record disk { opened = (3, bytes "l/f") ∷ [] };
}

-- A client after Unlink of `f`.
abbrev late : Client network
late = record client {
  world = λ host port.
      if is_at (bytes "a") 9090 host port then some (unlinked memory (bytes "f") holding) else none;
}

late-Ready :
    Ready memory 3 junk network
      (λ w. w)
      network-Delivers
      (bytes "a")
      9090
      (unlinked memory (bytes "f") holding)
      late
unfolding cbb.Text.eqb
late-Ready = record { free = refl; server = refl }

abbrev at_a : ServerInfo
at_a = record { host = bytes "a"; port = pos 9090 }

abbrev disk1 : Disk
disk1 = (memory.open_file_mode (bytes "l/h") 577 420 (unlinked memory (bytes "f") holding).fs).1

write_reused_example :
    let creating = Files.create network (bytes "h") (pos 577) 420 late in
    let writing = Files.write network file (bytes "xy") (pos 0) creating.1 in
    (holds (unlinked memory (bytes "f") holding).md_manager (bytes "f") 3 ≡ false)
    × (creating.0 ≡ ended (pos 0, some (file_of network (bytes "h") at_a 3)))
    × (writing.0 ≡ ended (pos 0, pos 2))
    × (w : Server memory) × (writing.1.world (bytes "a") 9090 ≡ some w)
    × (text_at w.fs (local_path roots (bytes "h")) ≡ some (bytes "xy"))
unfolding cbb.SelectServer.get_info cbb.StdMap.lookup cbb.Text.eqb local_path cbb.StdMap.assign
    cbb.Text.lt_bytes cbb.Posix.Data.splice cbb.Server.Names.unlink cbb.Manager.unregister
    cbb.Exporter.unregister cbb.StdMap.erase
write_reused_example =
    write_reused memory 3 junk network (λ w. w) network-Delivers text_at names memory-KeepsData file
      (bytes "h") (bytes "xy") 577 420 2 late at_a holding disk1
      (memory.pwrite 3 (bytes "xy") (pos 0) disk1).1 refl refl refl refl refl late-Ready
      (omega arith) (omega arith) (omega arith) (omega arith) refl refl refl
