-- ===== src/Lib.antt =====
-- A burst buffer for a parallel file system: a FUSE client sends each operation to one of several
-- servers, chosen by a hash of the path; a server works on a fast local storage and on a slow
-- secondary one, keeps a table of open descriptors, and copies closed files from the first to the
-- second in the background.
--
-- Which file models what (paths below src/ of the repository):
-- - Common: common/common.h and common/error.h. An `Error` is an integer; `SysResult` is what a
--   system call answers, `fail e` for errno = e + 1. Virtual links are names with a fixed suffix.
-- - Text: std::string as a list of bytes; StdMap: std::map as a list of pairs in the order of the
--   keys, std::set<int> as an ordered list of numbers.
-- - Hash: util/hash. `create` and `get_node` are ConsistentHash::Create and GetNode, with the
--   division by the number of servers, which throws for none; `calc_hash_md5` folds the digest of
--   OpenSSL, and `calc_hash_sha1` in Hash/Signed that of boost, as signed bytes.
-- - SelectServer: util/select_server. Settings: util/settings, over a parsed ini file.
-- - FileControl: util/file_control. Manager: cbb/meta_data_manager, over FileControl.
-- - Exporter: cbb/local_file_exporter. `check_local_files` is CheckLocalFiles with its mutex as a
--   flag: `threw` is an exception, `blocked` a lock that never opens, or a search without end.
--   Exporter/Search has SearchLocalFiles and its callers.
-- - Server: cbb/burst_buffer, the handlers: Server/Names, Server/Files, Server/Attributes,
--   Server/ReadDir, Server/Links and Server/XAttrs; Server/Directories has Rename, whose branch for
--   a file is in Server/Names, DuplicateDirSecondaryToLocal, and the constructor (`start`); below
--   Server/Duplicated is what these two make. A handler's reply is a result, the error of an
--   exception, or none.
-- - Client: cbb/burst_buffer_client. `client_call` is MSGPACK_CLIENT_CALL with g_fuse_mutex as a
--   flag; the operations are in Client/Names, Client/Attributes, Client/Files and Client/Prefetch;
--   Client/Start has Init.
-- - Dispatch: the parameters that BurstBuffer::dispatch converts; Dispatch/Handlers has dispatch
--   itself, and Dispatch/Codes the names of the methods on the wire.
-- - System: the client over servers that dispatch, one request after the other: NewFile, Rewrite
--   and Durable follow data to the secondary storage, Restore follows them back, Fuse starts at the
--   callbacks of FUSE, Reused has a descriptor that Unlink has closed, and Servers and Renaming
--   compare what the client returns with what the servers answer. Lifetime: a server from
--   some moment on, as the log of the requests that it served with its replies, while its exporter
--   thread copies and others change the storages. Placement: any number of clients, each of whose
--   operations is one of Client/Operations, over the servers. Dispatch/Frame says which handlers
--   change the two tables at all.
-- - Wrapper: cbfs/cbb_client_wrapper, the callbacks on open files over the table of handles;
--   Wrapper/Paths has the others.
-- - Cbfs: cbfs/cbfs.cc, the command line of the client's program, and in Cbfs/Operations the
--   callbacks that FUSE gets. Cbb: cbb/cbb.cc and util/options, from the command line to the server
--   that msgpack-rpc gets.
-- - ThreadLoop: util/thread, the start of a thread as interleaved steps; ThreadLoop/Interval has
--   its loop. MutexFile: util/mutex_file, as steps of threads.
-- - Prelude: the shared names, numbers and lists. Examples: the theorems at concrete inputs.
--
-- Parameters. `Posix` has the calls of the operating system and of boost::filesystem; `IsLawful`
-- names what is relied on of copying and removing files, and Posix/Memory is a file system in
-- memory that has these laws, and those of `KeepsData` in Posix/Data on the data that descriptors
-- lead to. boost's `exists` and `is_directory` are taken as tests that do not throw;
-- `last_write_time` and `copy_file` throw where the code gives no error code. `Network` has the
-- servers behind msgpack-rpc, inet_aton, and the path functions of boost; `Delivers` in System says
-- that a request reaches its server once and that the reply comes back. `RemovesTrees` in
-- Server/Moving says that remove_all takes away a tree and no more, `MakesDirs` in
-- Server/Duplicated that mkdir of a new name in a directory makes it; which paths are no other
-- spelling of the new name is a parameter of it. The ini parser and the hash are arguments. perror
-- is taken to leave errno as it is.
--
-- Bounds and loops. Loops run over lists, so that none needs fuel; the retry loop counts down its
-- counter. The two searches of directories take fuel for the depth of the directories, and do not
-- end where it runs out: any depth of a finite tree is enough. Descriptors are natural numbers,
-- since only descriptors of successful calls are kept; a hash of at most 160 bits fits the int256_t
-- of the ring; a port is cut to 16 bits, and the sizes that Read and Write answer to the 32 bits
-- of an int, on the server and again in the callbacks of FUSE. A client local that the code reads
-- before it is assigned
-- is an argument `junk`; so are the attributes of a reply that a handler has not set.
--
-- Not modelled: what msgpack does beyond the kinds and ranges of parameters; the loops of
-- msgpack-rpc and FUSE, and the handler of signals; logging. Two handlers never run interleaved
-- inside each other here, nor the exporter thread inside one of them. A recursive directory
-- iterator gives its list of entries at once.
pub mod Prelude
pub mod Text
pub mod Common
pub mod Hash
pub mod Settings
pub mod StdMap
pub mod Posix
pub mod FileControl
pub mod Manager
pub mod Exporter
pub mod Server
pub mod SelectServer
pub mod Client
pub mod Dispatch
pub mod Cbb
pub mod Cbfs
pub mod Lifetime
pub mod Placement
pub mod MutexFile
pub mod System
pub mod Wrapper
pub mod ThreadLoop
pub mod Examples
