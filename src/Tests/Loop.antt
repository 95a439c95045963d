-- ===== src/Tests/Loop.antt =====
-- The main loop and the pings of wlms.
use widelands_metaserver.Base.{
  ◌+◌, length, refl, str, List, ◌∷◌, find_key, arith, false, ◌||◌, ◌-◌, ◌*◌, [], ◌≡◌,
}
use widelands_metaserver.Metaserver.World.{Server, nanoseconds}
use widelands_metaserver.Metaserver.Clients.{nr_active_clients}
use widelands_metaserver.Metaserver.Status.{
  status, how_many, is_on_irc, is_playing, is_open, status_counts,
}
use widelands_metaserver.Metaserver.Games.{do_ping}
use widelands_metaserver.Metaserver.Games.Pings.{state_of, after_ping, do_ping_state}
use widelands_metaserver.Metaserver.Run.{max_online_time, cleanup, shutdown}
use widelands_metaserver.Metaserver.Run.Shutdown.{some_without_conn, shutdown_result}
use widelands_metaserver.Metaserver.Run.Cleanup.{first_stale, without, cleanup_removes_one}
use widelands_metaserver.Packet.{Packet}
use widelands_metaserver.Metaserver.Games.Names.{GamesFine}
use widelands_metaserver.Metaserver.Run.{Input, connect, packet, run, create_server}
use widelands_metaserver.Metaserver.Run.Games.{games_always_distinct}
use widelands_metaserver.Tests.Lobby.{
  toy_db, toy_relay, addresses, address, client_of, game, player_name, lobby,
}

-- LOGIN of build 20 without an account, and GAME_OPEN.
abbrev login_packet : Packet
login_packet = record {
  raw_data = str "LOGIN" ∷ (b'5' ∷ []) ∷ player_name ∷ (b'b' ∷ []) ∷ (b'0' ∷ []) ∷ (b'x' ∷ []) ∷ [];
}

abbrev open_packet : Packet
open_packet = record { raw_data = str "GAME_OPEN" ∷ (b'g' ∷ []) ∷ [] }

shutdown_result_example :
    ((shutdown lobby).clients ≡ [])
    × ((shutdown lobby).crashed
        ≡ (some_without_conn lobby.client_at lobby.clients || lobby.crashed))
shutdown_result_example = shutdown_result lobby

-- Eight days later.
abbrev old_lobby : Server
old_lobby = record lobby { now = 8 * 24 * 3600 * nanoseconds }

cleanup_removes_one_example :
    (cleanup old_lobby).games
    ≡ without
        (first_stale old_lobby.game_at (old_lobby.now - max_online_time) old_lobby.games)
        old_lobby.games
cleanup_removes_one_example = cleanup_removes_one old_lobby

do_ping_state_example : state_of 0 (do_ping 0 false lobby) ≡ after_ping false (state_of 0 lobby)
do_ping_state_example = do_ping_state 0 false lobby

-- A login, and the same game opened twice.
abbrev inputs : List Input
inputs = connect address ∷ packet 0 login_packet ∷ packet 0 open_packet ∷ packet 0 open_packet ∷ []

games_always_distinct_example :
    GamesFine (run inputs (create_server toy_db toy_relay addresses (client_of 3) game))
games_always_distinct_example =
    games_always_distinct toy_db toy_relay addresses (client_of 3) game inputs

-- The lobby with a game under pointer 0 alone.
abbrev one_game_lobby : Server
one_game_lobby = record lobby { games = 0 ∷ [] }

one_game_fine : GamesFine one_game_lobby
unfolding create_server find_key
one_game_fine = record { distinct = (refl, tt); fresh = (omega arith, tt) }

status_counts_example :
    ((status lobby).n_clients + how_many (is_on_irc lobby.client_at) lobby.clients
      ≡ nr_active_clients lobby)
    × ((status lobby).n_clients_in_games ≡ how_many (is_playing lobby.client_at) lobby.clients)
    × ((status lobby).n_games ≡ length lobby.games)
    × ((status lobby).n_open_games ≡ how_many (is_open lobby.game_at) lobby.games)
status_counts_example = status_counts lobby
