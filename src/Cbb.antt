-- ===== src/Cbb.antt =====
-- src/cbb/cbb.cc and src/util/options.cc: the program of the server, up to the loop of msgpack-rpc.
-- The parser of boost::program_options, the reader of the setting file, and the formatted text of the
-- usage are arguments.
pub mod Serves
use cbb.Prelude.{ℕ, Bool, true, false, ℤ, [], Option, none, some, if◌then◌else◌}
use cbb.Text.{Bytes}
use cbb.Common.{cbb_config}
use cbb.Posix.{Posix}
use cbb.Settings.{Tree, Settings, load}
use cbb.Server.{Server}
use cbb.Server.Directories.{start}

-- What the parser makes of the command line: the values of `option` and `help`, an exception that
-- the constructor of Options catches, or another one.
pub data Parsed : Type 0 where
  values : Option Bytes → Bool → Parsed
  error_with_option_name other_error : Parsed

pub record Options : Type 0 where
  pub is_help : Bool
  pub option_dir : Bytes
  pub option_desc : Bytes

-- The constructor of Options; `none` is an exception that leaves it.
unfoldable pub options : Bytes → Parsed → Option Options
options desc (values option help) = some (record {
  is_help = help;
  option_dir = elim option [ none ↦ cbb_config | some path ↦ path ];
  option_desc = if help then desc else [];
})
options desc error_with_option_name =
    some (record { is_help = true; option_dir = cbb_config; option_desc = desc })
options desc other_error = none

-- How far main comes: it prints the usage, or that the file cannot be loaded, and returns; it gives a
-- server to msgpack-rpc with a host, a port and a number of threads; or it does not come so far.
pub data Ended (P : Posix) : Type 0 where
  usage load_error : Bytes → Ended P
  serving : Server P → Bytes → ℤ → ℤ → Ended P
  stuck : Ended P

module _ (P : Posix) (fuel : ℕ) (to_int : Bytes → Option ℤ) (read_ini : Bytes → Option Tree) where
  -- What follows the options, from the settings as their constructor leaves them.
  unfoldable pub serve : Options → Settings → P.State → Ended P
  unfolding load start
  serve o blank s =
      let (settings, is_loaded) = load to_int (read_ini o.option_dir) true blank in
      if is_loaded
      then elim (start P fuel settings.server_local_strage_path
          settings.server_secondary_storage_path s) [
            | none ↦ stuck
            | some v ↦ serving v settings.server_host settings.server_port settings.server_thread
          ]
      else load_error o.option_dir

  unfoldable pub main : Bytes → Parsed → Settings → P.State → Ended P
  unfolding options serve
  main desc parsed blank s = elim (options desc parsed) [
    | none ↦ stuck
    | some o ↦ if o.is_help then usage o.option_desc else serve o blank s
  ]
