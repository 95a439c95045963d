-- ===== src/Rpc/MetaserverMethods.antt =====
-- wlnr/relayinterface/client_rpc.go: the methods of the metaserver that the relay calls, and the one that
-- gives the status.
use widelands_metaserver.Base.{false}
use widelands_metaserver.Metaserver.World.{Server}
use widelands_metaserver.Metaserver.Games.{game_connected, game_closed}
use widelands_metaserver.Metaserver.Status.{ServerStatus, status}
use widelands_metaserver.Rpc.{GameData, Outcome, answered}

-- ClientRPCMethods.GameConnected. The response is left as it is.
unfoldable pub host_connected : GameData → Server → Outcome × Server
host_connected in_data s = (answered false, game_connected in_data.name s)

-- ClientRPCMethods.GameClosed
unfoldable pub game_ended : GameData → Server → Outcome × Server
game_ended in_data s = (answered false, game_closed in_data.name s)

-- ClientRPCMethods.Status
unfoldable pub get_status : Server → ServerStatus
get_status s = status s
