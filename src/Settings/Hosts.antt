-- ===== src/Settings/Hosts.antt =====
-- The list of hosts in src/util/settings.cc: splitting undoes joining.
use cbb.Prelude.{◌≡◌, refl, ◌≢◌, List, [], ◌∷◌, ◌++◌, arith, All, ◌∙◌, ap}
use mathlib.Core.List.{append-nil, append_assoc}
use cbb.Text.{Bytes}
use cbb.Text.Find.{Lacks}
use cbb.Settings.{split_hosts, to_array}

-- The items with a comma between two of them.
unfoldable pub join_hosts : List Bytes → Bytes
join_hosts [] = []
join_hosts (host ∷ []) = host
join_hosts (host ∷ next ∷ hosts) = host ++ b',' ∷ join_hosts (next ∷ hosts)

-- A host that can stand in the list: it is not empty, and has no comma.
abbrev pub IsHost : Bytes → Type 0
IsHost host = (host ≢ []) × Lacks b',' host

split_hosts-append :
    (item host rest : Bytes)
    → Lacks b',' host
    → split_hosts item (host ++ rest) ≡ split_hosts (item ++ host) rest
unfolding split_hosts
split_hosts-append item [] rest lacks = rw append-nil
split_hosts-append item (c ∷ host) rest lacks = ground (
  arith,
  split_hosts-append (item ++ (c ∷ [])) host rest lacks.1,
  append_assoc item (c ∷ []) host,
)

split_hosts_end : (host : Bytes) → host ≢ [] → split_hosts host [] ≡ host ∷ []
unfolding split_hosts
split_hosts_end [] h = absurd (h refl)
split_hosts_end (c ∷ host) h = refl

split_hosts_comma :
    (host rest : Bytes) → host ≢ [] → split_hosts host (b',' ∷ rest) ≡ host ∷ split_hosts [] rest
unfolding split_hosts
split_hosts_comma [] rest h = absurd (h refl)
split_hosts_comma (c ∷ host) rest h = refl

-- Every list of non-empty host names without a comma is read back from its text with commas.
pub to_array-join_hosts :
    (hosts : List Bytes) → All IsHost hosts → to_array (join_hosts hosts) ≡ hosts
unfolding to_array join_hosts
to_array-join_hosts [] h = refl
to_array-join_hosts (host ∷ []) h =
    let whole : split_hosts [] (host ++ []) ≡ split_hosts host [] =
      split_hosts-append [] host [] h.0.1 in
    rw append-nil at whole ∙ split_hosts_end host h.0.0
to_array-join_hosts (host ∷ next ∷ hosts) h =
    split_hosts-append [] host (b',' ∷ join_hosts (next ∷ hosts)) h.0.1
    ∙ split_hosts_comma host (join_hosts (next ∷ hosts)) h.0.0
    ∙ ap (λ rest. host ∷ rest) (to_array-join_hosts (next ∷ hosts) h.1)
