-- ===== src/Examples/Data.antt =====
-- What a client writes to a server of files in memory.
use cbb.Prelude.{◌≡◌, pos, some, none, refl, arith, ◌∷◌, [], if◌then◌else◌}
use cbb.Common.{bytes}
use cbb.Text.{Bytes}
use cbb.Posix.Memory.{Disk, memory, names, text_at, memory-IsLawful, memory-KeepsData}
use cbb.Manager.{local_path, secondary_path}
use cbb.Server.{Server}
use cbb.Client.{Client, ended, client_call}
use cbb.Client.Files
use cbb.SelectServer.{ServerInfo}
use cbb.Dispatch.Handlers.{code_reply}
use cbb.System.{is_at}
use cbb.System.Data.{read-write, Ready}
use cbb.System.NewFile.{file_of}
use cbb.System.Rewrite.{export-release-write, released_after}
use cbb.System.Fuse.{cbfs_read-write-create}
use cbb.Client.Files.{handle}
use cbb.Wrapper.{Mount, cbfs_create, cbfs_write, cbfs_read}
use cbb.System.Restore.{read-open_file}
use cbb.System.Durable.{export-release-write-create, made_by, released_by}
use cbb.System.Export.{export_request}
use cbb.Examples.System.{
  junk, network, network-Delivers, roots, roots-IsDisjoint, server, client, file, disk,
}

-- The file `f` is open for descriptor 3.
abbrev opened : Server memory
opened = record server { fs = record disk { opened = (3, bytes "l/f") ∷ [] } }

abbrev writing : Client network
writing = record client {
  world = λ host port. if is_at (bytes "a") 9090 host port then some opened else none;
}

writing-Ready :
    Ready memory 3 junk network (λ w. w) network-Delivers (bytes "a") 9090 opened writing
unfolding cbb.Text.eqb
writing-Ready = record { free = refl; server = refl }

read-write_example :
    ((Files.write network file (bytes "xy") (pos 1) writing).0 ≡ ended (pos 0, pos 2))
    × ((Files.read network file 2
          (pos 1)
          (Files.write network file (bytes "xy") (pos 1) writing).1).0
        ≡ ended (pos 0, pos 2, bytes "xy"))
unfolding cbb.StdMap.lookup cbb.Text.eqb cbb.StdMap.assign cbb.Posix.Data.splice
read-write_example =
    read-write memory 3 junk network (λ w. w) network-Delivers text_at names memory-KeepsData file
      (bytes "l/f") (bytes "new") (bytes "xy") (bytes "xy") 1 2 writing opened
      (memory.pwrite 3 (bytes "xy") (pos 1) opened.fs).1 writing-Ready (omega arith) (omega arith)
      (omega arith) (omega arith) refl refl refl refl refl

abbrev at_a : ServerInfo
at_a = record { host = bytes "a"; port = pos 9090 }

client-Ready : Ready memory 3 junk network (λ w. w) network-Delivers (bytes "a") 9090 server client
unfolding cbb.Text.eqb
client-Ready = record { free = refl; server = refl }

abbrev disk1 : Disk
disk1 = (memory.open_file_mode (bytes "l/h") 577 420 disk).1

abbrev disk2 : Disk
disk2 = (memory.pwrite 3 (bytes "data") (pos 0) disk1).1

abbrev h : Files.File
h = file_of network (bytes "h") at_a 3

export-release-write-create_example :
    let last =
      client_call network
        (bytes "a")
        9090
        export_request
        (released_by network h (bytes "data") 577 420 client) in
    ((Files.create network (bytes "h") (pos 577) 420 client).0 ≡ ended (pos 0, some h))
    × ((Files.write network h (bytes "data") (pos 0) (made_by network (bytes "h") 577 420 client)).0
        ≡ ended (pos 0, pos 4))
    × (w : Server memory) × (last.1.world (bytes "a") 9090 ≡ some w)
    × (text_at w.fs (secondary_path roots (bytes "h")) ≡ some (bytes "data"))
    × (text_at w.fs (local_path roots (bytes "h")) ≡ some (bytes "data"))
unfolding cbb.SelectServer.get_info cbb.StdMap.lookup cbb.Text.eqb local_path secondary_path
    cbb.StdMap.assign cbb.Text.lt_bytes client_call Files.release Files.write Files.create
    cbb.Dispatch.Handlers.dispatch cbb.Server.Files.create cbb.Server.Files.write
    cbb.Server.Files.release cbb.Manager.unregister_fd cbb.Server.Files.local_file_export
    cbb.Exporter.check_local_files cbb.Posix.Data.splice cbb.StdMap.erase
export-release-write-create_example =
    export-release-write-create memory 3 junk network (λ w. w) network-Delivers text_at
      memory-IsLawful names memory-KeepsData (bytes "h") (bytes "data") 577 420 3 7 client at_a
      server disk1 disk2 (code_reply memory 3 junk (pos 0)) refl client-Ready roots-IsDisjoint refl
      (omega arith) (omega arith) (omega arith) (omega arith) refl refl refl refl refl refl

-- The server with `f` open, and with an older copy of it on the secondary storage.
abbrev behind : Server memory
behind = record opened {
  fs = record opened.fs {
    files =
        cbb.StdMap.assign (bytes "r/f") (record { text = bytes "old"; time = 1 }) opened.fs.files;
  };
}

abbrev rewriting : Client network
rewriting = record client {
  world = λ host port. if is_at (bytes "a") 9090 host port then some behind else none;
}

rewriting-Ready :
    Ready memory 3 junk network (λ w. w) network-Delivers (bytes "a") 9090 behind rewriting
unfolding cbb.Text.eqb
rewriting-Ready = record { free = refl; server = refl }

abbrev written : Disk
written = (memory.pwrite 3 (bytes "xy") (pos 1) behind.fs).1

export-release-write_example :
    let last =
      client_call network
        (bytes "a")
        9090
        export_request
        (released_after network file (bytes "xy") 1 rewriting) in
    ((Files.write network file (bytes "xy") (pos 1) rewriting).0 ≡ ended (pos 0, pos 2))
    × (w : Server memory) × (last.1.world (bytes "a") 9090 ≡ some w)
    × (text_at w.fs (secondary_path roots (bytes "f")) ≡ some (bytes "nxy"))
    × (text_at w.fs (local_path roots (bytes "f")) ≡ some (bytes "nxy"))
unfolding cbb.StdMap.lookup cbb.Text.eqb local_path secondary_path cbb.StdMap.assign
    cbb.Text.lt_bytes client_call Files.release Files.write cbb.Dispatch.Handlers.dispatch
    cbb.Server.Files.write cbb.Server.Files.release cbb.Manager.unregister_fd
    cbb.Server.Files.local_file_export cbb.Exporter.check_local_files cbb.Posix.Data.splice
    cbb.StdMap.erase cbb.Exporter.CheckFile.is_current
export-release-write_example =
    export-release-write memory 3 junk network (λ w. w) network-Delivers text_at memory-IsLawful
      names memory-KeepsData file (bytes "xy") (bytes "new") 1 2 7 rewriting behind written
      (code_reply memory 3 junk (pos 0)) rewriting-Ready roots-IsDisjoint refl (omega arith)
      (omega arith) (omega arith) refl refl refl refl refl refl refl

-- A mount with another file open.
abbrev mount : Mount network
mount = record { client = client; files = (9, file) ∷ [] }

cbfs_read-write-create_example :
    let fh = handle network (bytes "a") 3 in
    let m1 = (cbfs_create network (bytes "h") (pos 577) 420 mount).1 in
    let m2 = (cbfs_write network file fh (bytes "data") (pos 0) m1).1 in
    ((cbfs_create network (bytes "h") (pos 577) 420 mount).0 ≡ ended (pos 0, fh))
    × ((cbfs_write network file fh (bytes "data") (pos 0) m1).0 ≡ ended (pos 4))
    × ((cbfs_read network file fh 4 (pos 0) m2).0 ≡ ended (pos 4, bytes "data"))
unfolding cbb.SelectServer.get_info cbb.StdMap.lookup cbb.Text.eqb local_path cbb.StdMap.assign
    cbb.Text.lt_bytes cbb.Posix.Data.splice
cbfs_read-write-create_example =
    cbfs_read-write-create memory 3 junk network (λ w. w) network-Delivers text_at names
      memory-KeepsData (bytes "h") (bytes "data") (bytes "data") 577 420 3 4 mount at_a server disk1
      disk2 file refl client-Ready refl (omega arith) (omega arith) (omega arith) (omega arith)
      (omega arith) refl refl refl refl refl

-- The server when `f` is only on the secondary storage.
abbrev far_disk : Disk
far_disk = record disk { files = (bytes "r/f", record { text = bytes "kept"; time = 1 }) ∷ [] }

abbrev exported : Server memory
exported = record server { fs = far_disk }

abbrev reading : Client network
reading = record client {
  world = λ host port. if is_at (bytes "a") 9090 host port then some exported else none;
}

reading-Ready :
    Ready memory 3 junk network (λ w. w) network-Delivers (bytes "a") 9090 exported reading
unfolding cbb.Text.eqb
reading-Ready = record { free = refl; server = refl }

abbrev near_disk : Disk
near_disk = (memory.copy_file_overwrite (bytes "r/f") (bytes "l/f") far_disk).1

read-open_file_example :
    let opening = Files.open_file network (bytes "f") (pos 0) reading in
    let r = Files.read network (file_of network (bytes "f") at_a 3) 2 (pos 1) opening.1 in
    (opening.0 ≡ ended (pos 0, some (file_of network (bytes "f") at_a 3)))
    × (r.0 ≡ ended (pos 0, pos 2, bytes "ep"))
    × (w : Server memory) × (r.1.world (bytes "a") 9090 ≡ some w)
    × (text_at w.fs (local_path roots (bytes "f")) ≡ some (bytes "kept"))
unfolding cbb.SelectServer.get_info cbb.StdMap.lookup cbb.Text.eqb local_path secondary_path
    cbb.StdMap.assign cbb.Text.lt_bytes
read-open_file_example =
    read-open_file memory 3 junk network (λ w. w) network-Delivers text_at memory-IsLawful names
      memory-KeepsData (bytes "f") (bytes "kept") (bytes "ep") 3 2 1 0 reading at_a exported
      near_disk (memory.open_file (bytes "l/f") 0 near_disk).1 refl reading-Ready (omega arith)
      (omega arith) (omega arith) refl refl refl refl refl refl refl
