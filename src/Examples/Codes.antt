-- ===== src/Examples/Codes.antt =====
-- A name on the wire that no method has.
use cbb.Prelude.{◌≡◌, ◌≢◌, ◌⊎◌, []}
use cbb.Common.{bytes}
use cbb.Posix.Memory.{memory}
use cbb.Server.{error_reply}
use cbb.Client.{Method}
use cbb.Dispatch.Handlers.{dispatch}
use cbb.Dispatch.Codes.{code, dispatch_code, dispatch_code_cases}
use cbb.Examples.System.{junk, server}

dispatch_code_cases_example :
    ((m : Method) × (bytes "kNone" ≡ code m)
      × (dispatch_code memory 3 junk (bytes "kNone") [] server
          ≡ dispatch memory 3 junk (record { method = m; params = [] }) server))
    ⊎ (((m : Method) → bytes "kNone" ≢ code m)
        × (dispatch_code memory 3 junk (bytes "kNone") [] server ≡ (error_reply, server)))
dispatch_code_cases_example = dispatch_code_cases memory 3 junk (bytes "kNone") [] server
