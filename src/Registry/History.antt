-- ===== src/Registry/History.antt =====
-- What every history of the registry keeps.
use weft_os.Registry.{Registry}
