-- ===== src/Client/Prefetch.antt =====
-- The reading ahead of src/cbb/burst_buffer_client.cc: after Open, the other files of the directory.
use cbb.Prelude.{Bool, false, ◌||◌, pos, List, [], ◌∷◌, ◌++◌, if◌then◌else◌}
use cbb.Text.{Bytes, eqb}
use cbb.Common.{Error, dir_secondary}
use cbb.StdMap.{Map}
use cbb.Server.ReadDir.{Listed}
use cbb.Client.{Method, text, Network, M, pure, ◌>>=◌, ◌>>◌, code_at, call_all}
use cbb.Client.Files.{read_dir}

module _ (N : Network) where
  unfoldable pub file_prev_read : Bytes → M N Error
  unfolding code_at
  file_prev_read path =
      code_at N path (record { method = Method.file_prev_read; params = text path ∷ [] })

  unfoldable pub file_flush : Bytes → M N Error
  unfolding code_at
  file_flush path = code_at N path (record { method = Method.file_flush; params = text path ∷ [] })

  unfoldable pub local_file_export : Error → M N Error
  unfolding call_all
  local_file_export junk =
      call_all N (record { method = Method.local_file_export; params = [] }) junk

  -- The names that the loop of ThreadCall passes over.
  unfoldable pub is_skipped : Bytes → Bytes → Bool
  is_skipped target_filename filename =
      eqb filename (b'.' ∷ []) || eqb filename (b'.' ∷ b'.' ∷ []) || eqb filename target_filename

  -- The paths that ThreadCall asks for: the directory and the name, one after the other.
  unfoldable pub prefetch_paths : Bytes → Bytes → Map Listed → List Bytes
  unfolding is_skipped
  prefetch_paths dir target_filename [] = []
  prefetch_paths dir target_filename ((filename, stat) ∷ files) =
      let rest = prefetch_paths dir target_filename files in
      if is_skipped target_filename filename then rest else (dir ++ filename) ∷ rest

  -- The calls of FilePrevRead in ThreadCall.
  unfoldable pub prefetch_all : List Bytes → M N (Unit {0})
  unfolding file_prev_read
  prefetch_all [] = pure tt
  prefetch_all (path ∷ paths) = do e ← file_prev_read path; prefetch_all paths

  -- ThreadCall: false, so that the thread ends.
  unfoldable pub thread_call : Error → M N Bool
  unfolding read_dir prefetch_paths prefetch_all
  thread_call junk c =
      (do
        (error, dir_files) ← read_dir N c.prev_read_dir (pos 0) dir_secondary junk
        prefetch_all (prefetch_paths c.prev_read_dir c.target_filename dir_files)
        pure false)
        c
