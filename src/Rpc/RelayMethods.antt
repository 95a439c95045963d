-- ===== src/Rpc/RelayMethods.antt =====
-- wlnr/relayinterface/server_rpc.go: the methods of the relay that the metaserver calls.
use widelands_metaserver.Base.{Bool, true, false}
use widelands_metaserver.Relay.State.{Server}
use widelands_metaserver.Relay.Games.{create_game, remove_game}
use widelands_metaserver.Rpc.{GameData, Outcome, answered, err_other}

-- What is answered: true, or the error that is returned for false.
abbrev pub answer : Bool → Outcome
answer true = answered true
answer false = err_other

-- ServerRPCMethods.NewGame
unfoldable pub new_game : GameData → Server → Outcome × Server
new_game in_data s = let (ret, s') = create_game in_data.name in_data.password s in (answer ret, s')

-- ServerRPCMethods.RemoveGame
unfoldable pub close_game : GameData → Server → Outcome × Server
close_game in_data s = let (ret, s') = remove_game in_data.name s in (answer ret, s')
