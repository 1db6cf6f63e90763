-- ===== src/Cbfs/CommandLine.antt =====
-- What main of src/cbfs/cbfs.cc makes of a command line.
use cbb.Common.{cbb_config}
use cbb.Prelude.{
  ap, ◌∙◌, ◌≡◌, refl, true, false, List, [], ◌∷◌, ◌++◌, Option, some, map, if◌then◌else◌, drop, All,
  arith,
}
use cbb.Text.{Bytes, is_prefix}
use cbb.Cbfs.{
  starts_with, is_absolute_path, Options, option_name, parse_long_options, parse_option, parse_loop,
  set_absolute_path, main,
}

-- An argument of the program itself.
abbrev pub IsOption : Bytes → Type 0
IsOption arg = starts_with b'-' arg ≡ true

-- One that does not name a configuration.
abbrev pub IsOther : Bytes → Type 0
IsOther arg =
    (starts_with b'-' arg ≡ true)
    × ((if starts_with b'-' (drop 1 arg) then is_prefix option_name (drop 2 arg) else false)
        ≡ false)

-- No argument, or a mount point before those of FUSE.
abbrev pub StartsPlain : List Bytes → Type 0
StartsPlain [] = Unit {0}
StartsPlain (arg ∷ args) = starts_with b'-' arg ≡ false

-- "--option=PATH"
abbrev pub setting : Bytes → Bytes
setting path = b'-' ∷ b'-' ∷ option_name ++ path

parse_loop-options :
    (before args : List Bytes) (o : Options)
    → All IsOption before
    → (p : Options) × (parse_loop (before ++ args) o ≡ parse_loop args p)
unfolding parse_loop
parse_loop-options [] args o h = (o, refl)
parse_loop-options (arg ∷ before) args o h =
    let (p, e) = parse_loop-options before args (parse_option arg o) h.1 in
    (p, ground (arith, h.0, e))

parse_option-other :
    (arg : Bytes) (o : Options) → IsOther arg → (parse_option arg o).config_path ≡ o.config_path
unfolding parse_option parse_long_options
parse_option-other arg o h = ground (arith, h.0, h.1)

parse_loop-others :
    (after rest : List Bytes) (o : Options)
    → All IsOther after
    → StartsPlain rest
    → (p : Options) × (parse_loop (after ++ rest) o ≡ (rest, p)) × (p.config_path ≡ o.config_path)
unfolding parse_loop
parse_loop-others [] [] o h s = (o, refl, refl)
parse_loop-others [] (arg ∷ rest) o h s = (o, rw s refl, refl)
parse_loop-others (arg ∷ after) rest o h s =
    let (p, e, same) = parse_loop-others after rest (parse_option arg o) h.1 s in
    (p, rw h.0.0 e, same ∙ parse_option-other arg o h.0)

parse_loop-setting :
    (path : Bytes) (args : List Bytes) (o : Options)
    → parse_loop (setting path ∷ args) o ≡ parse_loop args (record o { config_path = path })
unfolding parse_loop parse_option parse_long_options is_prefix
parse_loop-setting path args o = refl

module _ (realpath : Bytes → Option Bytes) where
  -- What FUSE gets of the arguments that are left.
  abbrev pub passed : List Bytes → List (Option Bytes)
  passed [] = []
  passed (mount ∷ args) =
      (if is_absolute_path mount then some mount else realpath mount) ∷ map some args

  set_absolute_path-plain :
      (rest : List Bytes) (o : Options)
      → StartsPlain rest
      → ((set_absolute_path realpath rest o).0 ≡ passed rest)
        × ((set_absolute_path realpath rest o).1.config_path ≡ o.config_path)
  unfolding set_absolute_path
  set_absolute_path-plain [] o s = (refl, refl)
  set_absolute_path-plain (mount ∷ args) o s = (ground (arith, s), ground (arith, s))

  -- The last `--option=PATH` before the mount point sets the path of the configuration, whatever
  -- options stand around it, and FUSE gets the name of the program, the mount point made absolute by
  -- realpath where it is relative, with a null pointer where that fails, and what follows it.
  pub main-setting :
      (argv0 path : Bytes) (before after rest : List Bytes)
      → All IsOption before
      → All IsOther after
      → StartsPlain rest
      → ((main realpath argv0 (before ++ (setting path ∷ (after ++ rest)))).0
          ≡ some argv0 ∷ passed rest)
        × ((main realpath argv0 (before ++ (setting path ∷ (after ++ rest)))).1.config_path ≡ path)
  unfolding main
  main-setting argv0 path before after rest b a s =
      let o : Options = record { config_path = cbb_config; usages = 0 } in
      let (p, skipped) = parse_loop-options before (setting path ∷ (after ++ rest)) o b in
      let (q, done, kept) = parse_loop-others after rest (record p { config_path = path }) a s in
      let all = skipped ∙ parse_loop-setting path (after ++ rest) p ∙ done in
      let (left, same) = set_absolute_path-plain rest q s in
      (
        ap (λ r. some argv0 ∷ (set_absolute_path realpath r.0 r.1).0) all
            ∙ ap (λ l. some argv0 ∷ l) left,
        ap (λ r. (set_absolute_path realpath r.0 r.1).1.config_path) all ∙ same ∙ kept,
      )
