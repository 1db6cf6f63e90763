-- ===== src/Server/Duplicated/Places.antt =====
-- Where DuplicateDirSecondaryToLocal of src/cbb/burst_buffer.cc looks for the local directory.
use cbb.Prelude.{refl, drop-length-append, sym, length, drop, ◌∙◌, ap, ◌≡◌, [], ◌∷◌, ◌++◌}
use cbb.Text.{Bytes}
use mathlib.Core.List.{append_assoc}
use cbb.Manager.{secondary_path, local_path, Manager}
use cbb.Exporter.Search.{join}

-- A path below a root: nothing, or a slash first.
abbrev pub Below : Bytes → Type 0
Below [] = Unit {0}
Below (c ∷ r) = c ≡ b'/'

Below-join : (r name : Bytes) → Below r → Below (join r name)
Below-join [] name b = refl
Below-join (c ∷ r) name b = b

Below-slash : (r name : Bytes) → Below r → (x : Bytes) × (join r name ≡ b'/' ∷ x)
Below-slash [] name b = (name, refl)
Below-slash (c ∷ r) name b = (join r name, ap (λ d. d ∷ join r name) b)

module _ (m : Manager) where
  -- The same place on the secondary storage and on the local one.
  abbrev pub At : Bytes → Bytes → Type 0
  At sp lp =
      (r : Bytes) × (sp ≡ m.secondary_storage_root_path ++ r)
      × (lp ≡ m.local_storage_root_path ++ r)
      × Below r

  pub At-join : (sp lp name : Bytes) → At sp lp → At (join sp name) (join lp name)
  At-join sp lp name (r, e, l, b) = (
    join r name,
    ap (λ x. join x name) e ∙ append_assoc m.secondary_storage_root_path r (b'/' ∷ name),
    ap (λ x. join x name) l ∙ append_assoc m.local_storage_root_path r (b'/' ∷ name),
    Below-join r name b,
  )

  -- The name that DuplicateDirSecondaryToLocal computes of the local directory.
  pub local_place :
      (sp lp name : Bytes)
      → At sp lp
      → local_path m [] ++ drop (length (secondary_path m [])) (join sp name) ≡ join lp name
  unfolding local_path secondary_path At-join
  local_place sp lp name at =
      let (r', e, l, b') = At-join sp lp name at in
      let (r, _, _, b) = at in
      let (x, c) = Below-slash r name b in
      let sroot = m.secondary_storage_root_path in
      let lroot = m.local_storage_root_path in
      let sep : Bytes = b'/' ∷ [] in
      let cut : drop (length (sroot ++ sep)) (join sp name) ≡ x =
        ap (drop (length (sroot ++ sep)))
          (e ∙ ap (λ y. sroot ++ y) c ∙ sym (append_assoc sroot sep x))
        ∙ drop-length-append (sroot ++ sep) x in
      ap (λ y. (lroot ++ sep) ++ y) cut
      ∙ append_assoc lroot sep x
      ∙ ap (λ y. lroot ++ y) (sym c)
      ∙ sym l
