-- ===== src/Server/Lifecycle/Drain.antt =====
-- The drain empties the queue, and a stopped runtime owns no execution.
use open_litho_hub.Base.Dict.{nat_eq}
use open_litho_hub.Server.Runtime.{Runtime}
