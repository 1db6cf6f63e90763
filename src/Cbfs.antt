-- ===== src/Cbfs.antt =====
-- src/cbfs/cbfs.cc: the command line of the client's program. `none` in a list of arguments is a null
-- pointer; `realpath` is the function of the C library. Usage prints the help of FUSE and returns.
pub mod CommandLine
pub mod Operations
use cbb.Prelude.{
  ℕ, ◌+◌, Bool, true, false, List, [], ◌∷◌, Option, none, some, map, ◌==◌, if◌then◌else◌, drop,
}
use cbb.Text.{Bytes, is_prefix}
use cbb.Common.{bytes, cbb_config}

-- path[0] == c
abbrev pub starts_with : ℕ → Bytes → Bool
starts_with c [] = false
starts_with c (d ∷ path) = d == c

unfoldable pub is_absolute_path : Bytes → Bool
is_absolute_path path = starts_with b'/' path

-- g_config_path, and how often Usage is called.
pub record Options : Type 0 where
  pub config_path : Bytes
  pub usages : ℕ

-- "option="
abbrev pub option_name : Bytes
option_name = bytes "option="

unfoldable pub parse_long_options : Bytes → Options → Options
unfolding is_prefix
parse_long_options arg o =
    if is_prefix option_name (drop 2 arg) then record o { config_path = drop 9 arg } else o

-- The body of the loop of ParseOptions.
unfoldable pub parse_option : Bytes → Options → Options
unfolding parse_long_options
parse_option arg o =
    if starts_with b'-' (drop 1 arg)
    then parse_long_options arg o
    else record o { usages = o.usages + 1 }

-- The loop over the arguments after the name of the program: those that it leaves.
unfoldable pub parse_loop : List Bytes → Options → List Bytes × Options
unfolding parse_option
parse_loop [] o = ([], o)
parse_loop (arg ∷ args) o =
    let rest = parse_loop args (parse_option arg o) in
    if starts_with b'-' arg then rest else (arg ∷ args, o)

module _ (realpath : Bytes → Option Bytes) where
  -- The second argument made absolute.
  unfoldable pub set_absolute_path : List Bytes → Options → List (Option Bytes) × Options
  unfolding is_absolute_path
  set_absolute_path [] o = ([], o)
  set_absolute_path (path ∷ args) o =
      if starts_with b'-' path
      then (map some (path ∷ args), o)
      else if is_absolute_path path
      then (map some (path ∷ args), o)
      else elim (realpath path) [
        | some abs_path ↦ (map some (abs_path ∷ args), o)
        | none ↦ (none ∷ map some args, record o { usages = o.usages + 1 })
      ]

  -- ParseOptions: the new arguments, with the name of the program before those that are left.
  unfoldable pub parse_options : Bytes → List Bytes → Options → List (Option Bytes) × Options
  unfolding parse_loop set_absolute_path
  parse_options argv0 args o =
      let (rest, parsed) = parse_loop args o in
      let (left, absolute) = set_absolute_path rest parsed in (some argv0 ∷ left, absolute)

  -- main, up to the call of FUSE: its arguments, and the path of the configuration.
  unfoldable pub main : Bytes → List Bytes → List (Option Bytes) × Options
  unfolding parse_options
  main argv0 args = parse_options argv0 args (record { config_path = cbb_config; usages = 0 })
