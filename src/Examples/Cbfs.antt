-- ===== src/Examples/Cbfs.antt =====
-- A command line of the client's program.
use cbb.Prelude.{◌≡◌, [], ◌∷◌, Option, some, refl}
use cbb.Text.{Bytes}
use cbb.Common.{bytes}
use cbb.Cbfs.{main}
use cbb.Cbfs.CommandLine.{main-setting}

abbrev realpath : Bytes → Option Bytes
realpath path = some (bytes "/home/mnt")

main-setting_example :
    let r = main realpath (bytes "cbfs") (
      bytes "-x"
      ∷ bytes "--option=a.conf"
      ∷ bytes "--option=b.conf"
      ∷ bytes "--verbose"
      ∷ bytes "mnt"
      ∷ bytes "-f"
      ∷ []) in
    (r.0 ≡ some (bytes "cbfs") ∷ some (bytes "/home/mnt") ∷ some (bytes "-f") ∷ [])
    × (r.1.config_path ≡ bytes "b.conf")
unfolding cbb.Text.is_prefix cbb.Cbfs.is_absolute_path
main-setting_example =
    main-setting realpath (bytes "cbfs") (bytes "b.conf")
      (bytes "-x" ∷ bytes "--option=a.conf" ∷ []) (bytes "--verbose" ∷ [])
      (bytes "mnt" ∷ bytes "-f" ∷ []) (refl, (refl, tt)) ((refl, refl), tt) refl
