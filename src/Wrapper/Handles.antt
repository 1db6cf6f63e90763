-- ===== src/Wrapper/Handles.antt =====
-- The handles of open files in src/cbfs/cbb_client_wrapper.cc.
use cbb.Prelude.{ap, ℕ, ◌^◌, ◌<◌, ◌≡◌, refl, ℤ, pos, [], ◌∷◌, some, arith, ◌==◌, if◌then◌else◌}
use cbb.Text.{Bytes}
use cbb.Client.{Network, Client, ended}
use cbb.Client.Files
use cbb.Client.Files.{File, handle}
use cbb.Wrapper.{FileTable, set_file, find_file, Mount, cbfs_open, cbfs_flush}

pub find_file-set_file :
    (fh k : ℕ) (file : File) (files : FileTable)
    → find_file k (set_file fh file files) ≡ (if k == fh then some file else find_file k files)
unfolding find_file set_file
find_file-set_file fh k file [] = refl
find_file-set_file fh k file ((j, old) ∷ files) = ground (arith, find_file-set_file fh k file files)

module _ (N : Network) where
  -- Handles of two open files are equal only if the addresses of their servers and the descriptors
  -- are: a descriptor is a non-negative int, and fits the low 32 bits.
  handle_injective :
      (host host' : Bytes) (fd fd' : ℕ)
      → fd < 2 ^ 31
      → fd' < 2 ^ 31
      → handle N host fd ≡ handle N host' fd'
      → (N.addr_to_binary host ≡ N.addr_to_binary host') × (fd ≡ fd')
  unfolding handle
  handle_injective host host' fd fd' h h' e = (omega arith, omega arith)

  cbfs_open_done :
      (path : Bytes) (flags : ℤ) (v : Mount N) (file : File) (c : Client N)
      → Files.open_file N path flags v.client ≡ (ended (pos 0, some file), c)
      → cbfs_open N path flags v
        ≡ (ended (pos 0, file.fd), record { client = c; files = set_file file.fd file v.files })
  unfolding cbfs_open
  cbfs_open_done path flags v file c e = ground arith

  -- After a successful CBFSOpen the handle leads to the file that the client opened, so that an
  -- operation on the handle goes to the server, the path and the descriptor of that file; every
  -- other handle leads where it led before.
  pub cbfs_open_keeps :
      (path : Bytes) (flags : ℤ) (v : Mount N) (file : File) (c : Client N) (k : ℕ)
      → Files.open_file N path flags v.client ≡ (ended (pos 0, some file), c)
      → let r = cbfs_open N path flags v in
        (r.0 ≡ ended (pos 0, file.fd))
        × ((blank : File) → (cbfs_flush N blank file.fd r.1).0 ≡ (Files.flush N file c).0)
        × (find_file k r.1.files ≡ (if k == file.fd then some file else find_file k v.files))
  unfolding cbfs_flush
  cbfs_open_keeps path flags v file c k e =
      let stored = find_file-set_file file.fd file.fd file v.files in
      (
        ap (λ r. r.0) (cbfs_open_done path flags v file c e),
        λ blank. rw (cbfs_open_done path flags v file c e) (ground (arith, stored)),
        rw (cbfs_open_done path flags v file c e) (find_file-set_file file.fd k file v.files),
      )
