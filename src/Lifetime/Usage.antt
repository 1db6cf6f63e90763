-- ===== src/Lifetime/Usage.antt =====
-- Which descriptors of src/cbb/burst_buffer.cc are in use by the log of its requests and replies.
use cbb.Prelude.{ℕ, Bool, false, not, ◌&&◌, ◌||◌, ◌^◌, ◌==◌, List, [], ◌∷◌}
use cbb.Text.{Bytes, eqb}
use cbb.Manager.Table.{is_fd}
use cbb.Server.{Reply, result, error_reply, no_reply}
use cbb.Client.{Method, Param, Response, text, num}
use cbb.Dispatch.Handlers.{in_range, pattern_of}
use cbb.Lifetime.{Log}

-- Whether a reply gives the descriptor `x`.
abbrev pub replies : Reply Response → ℕ → Bool
replies (result a) x = is_fd x a.code
replies error_reply x = false
replies no_reply x = false

-- Whether a request with its reply opens the descriptor `x` under the path `q`.
unfoldable pub opens : Method → List Param → Reply Response → Bytes → ℕ → Bool
opens Method.create (text path ∷ params) r q x = eqb q path && replies r x
opens Method.open_file (text path ∷ params) r q x = eqb q path && replies r x
opens _ params r q x = false

-- Whether a request closes the descriptor `x` of the path `q`.
unfoldable pub closes : Method → List Param → Bytes → ℕ → Bool
closes Method.release (text path ∷ num fd ∷ params) q x =
    in_range (2 ^ 31) fd && eqb q path && x == pattern_of fd
closes Method.file_flush (text path ∷ params) q x = eqb q path
closes _ params q x = false

-- Whether a request removes the path `q`.
unfoldable pub unlinks : Method → List Param → Bytes → Bool
unlinks Method.unlink (text path ∷ params) q = eqb q path
unlinks _ params q = false

-- Whether, by the log, the descriptor `x` was opened under the path `q` and not closed since.
unfoldable pub in_use : Log → Bytes → ℕ → Bool
unfolding opens closes
in_use [] q x = false
in_use ((req, r) ∷ log) q x =
    opens req.method req.params r q x || (not (closes req.method req.params q x) && in_use log q x)

-- Whether the log has a request that removes the path `q`.
unfoldable pub unlinked : Log → Bytes → Bool
unfolding unlinks
unlinked [] q = false
unlinked ((req, r) ∷ log) q = unlinks req.method req.params q || unlinked log q
