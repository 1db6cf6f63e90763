-- ===== src/Client/Operations.antt =====
-- Every operation of the client of src/cbb/burst_buffer_client.h but Init, and that of its thread.
use cbb.Prelude.{ℕ, ℤ}
use cbb.Text.{Bytes}
use cbb.Common.{Error, TimeSpec, ReadDirType}
use cbb.Client.{Network, Client}
use cbb.Client.Names
use cbb.Client.Attributes
use cbb.Client.Files
use cbb.Client.Files.{File}
use cbb.Client.Prefetch

-- The operations that a client may do; `reading_ahead` is the one of its thread.
pub data Operation : Type 0 where
  getting_attr : (path : Bytes) → Operation
  reading_link : (path : Bytes) (size : ℕ) → Operation
  making_dir : (path : Bytes) (mode : ℕ) (junk : Error) → Operation
  unlinking : (path : Bytes) (junk : Error) → Operation
  removing_dir : (path : Bytes) (junk : Error) → Operation
  symlinking : (path link : Bytes) → Operation
  renaming : (old_path new_path : Bytes) → Operation
  linking : (path newpath : Bytes) → Operation
  setting_xattr : (path name value : Bytes) (size : ℕ) (flags : ℤ) → Operation
  changing_mode : (path : Bytes) (mode : ℕ) → Operation
  changing_owner : (path : Bytes) (uid gid : ℕ) → Operation
  truncating : (path : Bytes) (size : ℤ) → Operation
  accessing : (path : Bytes) (mode : ℤ) → Operation
  setting_times : (path : Bytes) (time0 time1 : TimeSpec) → Operation
  getting_xattr : (path name value : Bytes) (size : ℕ) → Operation
  listing_xattr : (path list : Bytes) (size : ℕ) → Operation
  removing_xattr : (path name : Bytes) → Operation
  getting_file_attr : (path : Bytes) (fd : ℕ) → Operation
  getting_stat_fs : (path : Bytes) → Operation
  opening : (path : Bytes) (flags : ℤ) → Operation
  creating : (path : Bytes) (flags : ℤ) (mode : ℕ) → Operation
  reading : (file : File) (size : ℕ) (offset : ℤ) → Operation
  writing : (file : File) (buf : Bytes) (offset : ℤ) → Operation
  flushing : (file : File) → Operation
  releasing : (file : File) → Operation
  syncing : (file : File) (datasync : ℤ) → Operation
  truncating_file : (file : File) (size : ℤ) → Operation
  syncing_dir : (path : Bytes) (datasync : ℤ) (junk : Error) → Operation
  locking : (path : Bytes) (file : File) → Operation
  reading_dir : (path : Bytes) (offset : ℤ) (type : ReadDirType) (junk : Error) → Operation
  prefetching : (path : Bytes) → Operation
  flushing_file : (path : Bytes) → Operation
  exporting : (junk : Error) → Operation
  reading_ahead : (junk : Error) → Operation

-- The client after an operation.
unfoldable pub after : (N : Network) → Operation → Client N → Client N
after N (getting_attr path) c = (Names.get_attr N path c).1
after N (reading_link path size) c = (Names.read_link N path size c).1
after N (making_dir path mode junk) c = (Names.mk_dir N path mode junk c).1
after N (unlinking path junk) c = (Names.unlink N path junk c).1
after N (removing_dir path junk) c = (Names.rm_dir N path junk c).1
after N (symlinking path link) c = (Names.symlink N path link c).1
after N (renaming old_path new_path) c = (Names.rename N old_path new_path c).1
after N (linking path newpath) c = (Names.link N path newpath c).1
after N (setting_xattr path name value size flags) c =
    (Names.set_xattr N path name value size flags c).1
after N (changing_mode path mode) c = (Attributes.chmod N path mode c).1
after N (changing_owner path uid gid) c = (Attributes.chown N path uid gid c).1
after N (truncating path size) c = (Attributes.truncate N path size c).1
after N (accessing path mode) c = (Attributes.access N path mode c).1
after N (setting_times path time0 time1) c = (Attributes.utimens N path time0 time1 c).1
after N (getting_xattr path name value size) c = (Attributes.get_xattr N path name value size c).1
after N (listing_xattr path list size) c = (Attributes.list_xattr N path list size c).1
after N (removing_xattr path name) c = (Attributes.remove_xattr N path name c).1
after N (getting_file_attr path fd) c = (Attributes.fget_attr N path fd c).1
after N (getting_stat_fs path) c = (Attributes.stat_fs N path c).1
after N (opening path flags) c = (Files.open_file N path flags c).1
after N (creating path flags mode) c = (Files.create N path flags mode c).1
after N (reading file size offset) c = (Files.read N file size offset c).1
after N (writing file buf offset) c = (Files.write N file buf offset c).1
after N (flushing file) c = (Files.flush N file c).1
after N (releasing file) c = (Files.release N file c).1
after N (syncing file datasync) c = (Files.fsync N file datasync c).1
after N (truncating_file file size) c = (Files.ftruncate N file size c).1
after N (syncing_dir path datasync junk) c = (Files.fsync_dir N path datasync junk c).1
after N (locking path file) c = (Files.lock N path file c).1
after N (reading_dir path offset type junk) c = (Files.read_dir N path offset type junk c).1
after N (prefetching path) c = (Prefetch.file_prev_read N path c).1
after N (flushing_file path) c = (Prefetch.file_flush N path c).1
after N (exporting junk) c = (Prefetch.local_file_export N junk c).1
after N (reading_ahead junk) c = (Prefetch.thread_call N junk c).1
