-- ===== src/Exporter/Found.antt =====
-- What the search of src/cbb/local_file_exporter.cc registers, over a description of the directories
-- of the local storage as a tree.
use cbb.StdMap.Laws.{lookup-assign}
use cbb.Text.Find.{eqb_iff}
use cbb.StdMap.{assign, lookup}
use cbb.Exporter.{returned, Exporter}
use cbb.Manager.{local_path, Manager}
use mathlib.Core.List.{append_assoc, append-nil}
use cbb.Exporter.Search.{search_entry, search_entries, search_local_files, research_local_files}
use cbb.Prelude.{
  drop-length-append, ◌<◌, ◌∙◌, zero, ◌≤◌, Option-cases, refl, ◌∙◌, inl, inr, none, ◌++◌, arith,
  some, if◌then◌else◌, Option, ℕ, suc, ◌≡◌, Bool, true, false, not, ◌&&◌, ◌||◌, pos, List, [], ◌∷◌,
}
use Prim.Native.Nat.{max}
use cbb.Text.{Bytes, eqb}
use cbb.Common.{fail, ok}
use cbb.Exporter.{register, Outcome}
use cbb.Posix.{Posix, Dirent}
use cbb.Exporter.Search.{is_dot, join}

mutual
  pub data Node : Type 0 where
    file : Node
    dir : Entries → Node
    -- what the search passes over: `.`, `..`, and what is neither a file nor a directory
    other : Node

  pub data Entries : Type 0 where
    end : Entries
    entry : Bytes → Node → Entries → Entries

-- How deep the directories lie in one another.
unfoldable mutual
  pub depth_node : Node → ℕ
  depth_node file = 0
  depth_node (dir entries) = suc (depth entries)
  depth_node other = 0

  pub depth : Entries → ℕ
  depth end = 0
  depth (entry name node more) = max (depth_node node) (depth more)

-- Whether a path is that of a file, below the path at which the tree stands.
unfoldable mutual
  pub is_file_node : Bytes → Node → Bytes → Bool
  is_file_node at file path = eqb path at
  is_file_node at (dir entries) path = is_file at entries path
  is_file_node at other path = false

  pub is_file : Bytes → Entries → Bytes → Bool
  is_file at end path = false
  is_file at (entry name node more) path =
      is_file_node (join at name) node path || is_file at more path

module _ (P : Posix) (s : P.State) where
  -- The tree is what the system shows below a directory.
  unfoldable mutual
    pub ShowsNode : Bytes → Bytes → Node → Type 0
    ShowsNode fname name file = P.is_regular_file s fname ≡ true
    ShowsNode fname name (dir entries) =
        (P.is_regular_file s fname ≡ false)
        × ((P.is_directory s fname && not (is_dot name)) ≡ true)
        × ((ents : List Dirent) × (P.read_dir s fname (pos 0) ≡ ok ents) × Shows fname entries ents)
    ShowsNode fname name other =
        (P.is_regular_file s fname ≡ false)
        × ((P.is_directory s fname && not (is_dot name)) ≡ false)

    pub Shows : Bytes → Entries → List Dirent → Type 0
    Shows path end [] = Unit {0}
    Shows path end (ent ∷ rest) = ⊥
    Shows path (entry name node more) [] = ⊥
    Shows path (entry name node more) (ent ∷ rest) =
        (ent.d_name ≡ name) × ShowsNode (join path name) name node × Shows path more rest

-- The new value, where there is one and the test holds.
abbrev pub take_if : Bool → Option ℕ → Option ℕ → Option ℕ
take_if true (some t) old = some t
take_if _ new old = old

take_if-none : (b : Bool) (new : Option ℕ) → take_if b new none ≡ (if b then new else none)
take_if-none true none = refl
take_if-none true (some t) = refl
take_if-none false new = refl

module _ (P : Posix) (m : Manager) (s : P.State) where
  -- The time with which a path is registered, if it can be.
  unfoldable pub time_of : Bytes → Option ℕ
  time_of path =
      if P.exists s (local_path m path)
      then elim (P.last_write_time s (local_path m path)) [ fail e ↦ none | ok time ↦ some time ]
      else none

  -- `y` has what `x` has, and the files of a set with their times.
  abbrev pub Adds : (Bytes → Bool) → Exporter → Exporter → Type 0
  Adds found x y =
      (y.locked ≡ false)
      × ((q : Bytes)
          → lookup q y.local_files ≡ take_if (found q) (time_of q) (lookup q x.local_files))

  register-Adds :
      (path : Bytes) (x : Exporter)
      → x.locked ≡ false
      → (y : Exporter) × (b : Bool) × (register P m path x s ≡ returned (y, b))
        × Adds (λ q. eqb q path) x y
  unfolding register time_of
  register-Adds path x u = elim (Option-cases (time_of path)) [
    | inl e ↦ (x, false, ground (arith, e), (u, λ q. ground (arith, e, eqb_iff q path)))
    | inr (t, e) ↦ (
      record x { local_files = assign path t x.local_files },
      true,
      ground (arith, e),
      (u, λ q. ground (arith, e, eqb_iff q path, lookup-assign path q t x.local_files)),
    )
  ]

  -- The root of the search.
  abbrev root : Bytes
  root = local_path m []

  Adds-trans :
      (f g : Bytes → Bool) (x y z : Exporter) → Adds f x y → Adds g y z → Adds (λ q. f q || g q) x z
  Adds-trans f g x y z a b = (b.0, λ q. ground (arith, a.1 q, b.1 q))

  Adds-none : (x : Exporter) → x.locked ≡ false → Adds (λ q. false) x x
  Adds-none x u = (u, λ q. refl)

  join-root : (rel name : Bytes) → join (root ++ rel) name ≡ root ++ join rel name
  join-root rel name = append_assoc root rel (b'/' ∷ name)

  module _ (search : Bytes → Exporter → Outcome Exporter) (path name : Bytes) (x : Exporter) where
    search_entry_dir :
        P.is_regular_file s (join path name) ≡ false
        → (P.is_directory s (join path name) && not (is_dot name)) ≡ true
        → search_entry P search m s path name x ≡ search (join path name) x
    unfolding search_entry
    search_entry_dir r d = ground (arith, r, d)

    search_entries_step :
        (ent : Dirent) (ents : List Dirent) (y : Exporter)
        → ent.d_name ≡ name
        → search_entry P search m s path name x ≡ returned y
        → search_entries P search m s path (ent ∷ ents) x ≡ search_entries P search m s path ents y
    unfolding search_entries
    search_entries_step ent ents y n e = ground (arith, n, e)

  search_local_files_read :
      (fuel : ℕ) (path : Bytes) (x : Exporter) (ents : List Dirent)
      → P.read_dir s path (pos 0) ≡ ok ents
      → search_local_files P (suc fuel) m s path x
        ≡ search_entries P (search_local_files P fuel m s) m s path ents x
  unfolding search_local_files
  search_local_files_read fuel path x ents e = ground (arith, e)

  mutual
    unfolding search_entry search_entries Shows depth is_file

    entry_finds :
        (node : Node) (fuel : ℕ) (rel name : Bytes) (x : Exporter)
        → ShowsNode P s (join (root ++ rel) name) name node
        → depth_node node ≤ fuel
        → x.locked ≡ false
        → (y : Exporter) × (search_entry P (search_local_files P fuel m s) m s (root ++ rel) name x
            ≡ returned y)
          × Adds (is_file_node (join rel name) node) x y
    entry_finds file fuel rel name x shows d u =
        let (y, b, e, adds) = register-Adds (join rel name) x u in
        (y, rw (shows, join-root rel name, drop-length-append root (join rel name), e) refl, adds)
    entry_finds (dir entries) zero rel name x shows d u = absurd (omega arith)
    entry_finds (dir entries) (suc fuel) rel name x shows d u =
        let (ents, e, below) = shows.2 in
        let (y, found, adds) =
          entries_finds entries fuel (join rel name) ents x (rw (join-root rel name) at below)
            (omega arith) u in
        (
          y,
          search_entry_dir (search_local_files P (suc fuel) m s) (root ++ rel) name x shows.0
                shows.1
              ∙ search_local_files_read fuel (join (root ++ rel) name) x ents e
              ∙ rw (join-root rel name) found,
          adds,
        )
    entry_finds other fuel rel name x shows d u = (x, rw (shows.0, shows.1) refl, Adds-none x u)

    entries_finds :
        (entries : Entries) (fuel : ℕ) (rel : Bytes) (ents : List Dirent) (x : Exporter)
        → Shows P s (root ++ rel) entries ents
        → depth entries ≤ fuel
        → x.locked ≡ false
        → (y : Exporter) × (search_entries P
              (search_local_files P fuel m s)
              m
              s
              (root ++ rel)
              ents
              x
            ≡ returned y)
          × Adds (is_file rel entries) x y
    entries_finds end fuel rel [] x shows d u = (x, refl, Adds-none x u)
    entries_finds end fuel rel (ent ∷ ents) x shows d u = absurd shows
    entries_finds (entry name node more) fuel rel [] x shows d u = absurd shows
    entries_finds (entry name node more) fuel rel (ent ∷ ents) x shows d u =
        let (y, e, adds) = entry_finds node fuel rel name x shows.1 (omega arith) u in
        let (z, f, adds') = entries_finds more fuel rel ents y shows.2 (omega arith) adds.0 in
        (
          z,
          search_entries_step (search_local_files P fuel m s) (root ++ rel) name x ent ents y
                shows.0 e
              ∙ f,
          Adds-trans _ _ x y z adds adds',
        )

  -- On a local storage of finite depth, with fuel for it and the mutex free, ReSearchLocalFiles ends;
  -- the mutex is free, and the table has exactly the regular files of the tree, each under its path
  -- from the root of the storage, that exist there with a time that can be read, with that time.
  pub research_local_files_finds :
      (entries : Entries) (fuel : ℕ) (ents : List Dirent) (x : Exporter)
      → P.read_dir s root (pos 0) ≡ ok ents
      → Shows P s root entries ents
      → depth entries < fuel
      → x.locked ≡ false
      → (y : Exporter) × (research_local_files P fuel m s x ≡ returned y)
        × (y.locked ≡ false)
        × ((q : Bytes)
            → lookup q y.local_files ≡ (if is_file [] entries q then time_of q else none))
  unfolding research_local_files lookup
  research_local_files_finds entries zero ents x r shows d u = absurd (omega arith)
  research_local_files_finds entries (suc fuel) ents x r shows d u =
      let cleared : Exporter = record x { local_files = [] } in
      let (y, e, adds) =
        entries_finds entries fuel [] ents cleared (rw append-nil shows) (omega arith) u in
      (
        y,
        ground (arith, search_local_files_read fuel root cleared ents r, rw append-nil at e),
        adds.0,
        λ q. adds.1 q ∙ take_if-none (is_file [] entries q) (time_of q),
      )
