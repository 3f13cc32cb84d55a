-- ===== src/Logging/LogService/Singleton.antt =====
-- src/logging/logging.cc: the singleton, as the `service_instance` that each function finds.
-- The destructor of a LogService stops it.
use libni.Base.{ℕ, List, Option, some, none}
use libni.Logging.LogService.{LogService, make, Found, get, start, stop}

unfoldable pub init : ℕ → Option LogService → Option LogService
unfolding make
init queue_size instance' = some (make queue_size)

-- `none` is the `nullptr` that is returned before `init`.
unfoldable pub logger : List ℕ → Option LogService → Option Found
unfolding get
logger name none = none
logger name (some s) = some (get name s)

-- `none` is a failed `assert`.
unfoldable pub start_service : Option LogService → Option LogService
unfolding start
start_service none = none
start_service (some s) = start s

unfoldable pub stop_service : Option LogService → Option LogService
unfolding stop
stop_service none = none
stop_service (some s) = some (stop s)
