-- ===== src/Metaserver/Run.antt =====
-- wlms/server.go: the goroutine of the IRC bridge, the main loop, and one step of the server for each
-- thing that can happen to it. The handlers run one after the other.
pub mod Shutdown
pub mod Cleanup
pub mod Games
use widelands_metaserver.Base.{
  ℕ, ◌+◌, ◌-◌, ◌*◌, Bool, true, false, not, ◌&&◌, Option, none, some, List, [], ◌∷◌, ◌++◌, ltb,
  if◌then◌else◌, is_some, Bytes, str,
}
use widelands_metaserver.Packet.{Packet}
use widelands_metaserver.Metaserver.World.{
  is_irc, Conn, Client, Game, AddressPair, UserDb, Relay, Server, nanoseconds,
}
use widelands_metaserver.Metaserver.Clients.{
  send_packet, broadcast_to_connected_clients, clients_update, disconnect, add_client,
  remove_client, has_irc_client, announce_now,
}
use widelands_metaserver.Metaserver.Games.{remove_game, ping_turn, game_connected, game_closed}
use widelands_metaserver.Metaserver.Chat.{chat}
use widelands_metaserver.Metaserver.Dispatch.{
  receive, client_timeout, stream_ended, ping_timer, forget_client, new_client, new_irc_client,
  allocate,
}

-- The IRC goroutine: a message, a nick that joins, a nick that leaves.
unfoldable pub irc_message : Bytes → Bytes → Server → Server
irc_message nick m s =
    broadcast_to_connected_clients (chat (str "<IRC> " ++ nick) m (str "public")) s

unfoldable pub irc_join : Bytes → Server → Server
irc_join nick s =
    let p = s.next_client in
    if is_some (has_irc_client nick s)
    then s
    else broadcast_to_connected_clients clients_update
        (add_client p (allocate (new_irc_client nick) s))

unfoldable pub irc_leave : Bytes → Server → Server
irc_leave nick s = elim (has_irc_client nick s) [
  | none ↦ s
  | some p ↦ broadcast_to_connected_clients clients_update (remove_client p s)
]

-- The main loop on a connection: a goroutine for a new client.
unfoldable pub new_connection : Conn → Server → Server
new_connection a s = allocate (new_client a s) s

-- The main loop on a shutdown.
unfoldable pub shutdown_loop : List ℕ → Server → Server
shutdown_loop [] s = s
shutdown_loop (p ∷ ps) s = shutdown_loop ps (record (disconnect p s) { clients = ps })

unfoldable pub shutdown : Server → Server
shutdown s = shutdown_loop s.clients s

abbrev pub max_online_time : ℕ
max_online_time = 7 * 24 * 3600 * nanoseconds

-- The main loop on a tick of the cleanup: the games. The callback removes the list element that the
-- loop of ForeachGame stands on, which then has no next one: the loop ends.
unfoldable pub cleanup_games : ℕ → List ℕ → Server → Server
cleanup_games before [] s = s
cleanup_games before (g ∷ gs) s =
    let rest = cleanup_games before gs s in
    if ltb (s.game_at g).time_last_activity before then remove_game g s else rest

-- And the clients.
unfoldable pub cleanup_clients : ℕ → List ℕ → Server → Server
cleanup_clients before [] s = s
cleanup_clients before (p ∷ ps) s =
    let c = s.client_at p in
    cleanup_clients before ps (
      if not (is_irc c.permissions) && ltb c.time_last_message before
      then disconnect p (send_packet p client_timeout s)
      else s)

unfoldable pub cleanup : Server → Server
cleanup s =
    let before = s.now - max_online_time in
    let s' = cleanup_games before s.games s in cleanup_clients before s'.clients s'

-- CreateServerUsing, once the addresses of the host are known.
unfoldable pub create_server : UserDb → Relay → AddressPair → Client → Game → Server
create_server db relay addresses blank_client blank_game = record {
  clients = [];
  games = [];
  client_at = λ _. blank_client;
  game_at = λ _. blank_game;
  next_game = 0;
  next_client = 0;
  user_db = db;
  motd = [];
  client_sending_timeout = 120 * nanoseconds;
  ping_cycle_time = 15 * nanoseconds;
  game_initial_ping_timeout = 10 * nanoseconds;
  game_ping_timeout = 30 * nanoseconds;
  client_forget_timeout = 300 * nanoseconds;
  messages_to_irc = [];
  relay = relay;
  relay_address = addresses;
  banned = [];
  now = 0;
  random = none;
  events = [];
  tasks = [];
  crashed = false;
}

-- What can happen: a connection, what a client's loop waits for, a goroutine that goes on, IRC, the
-- relay, the main loop's other cases; and the clock, the random source and the IRC bridge that takes
-- a message from its channel.
pub data Input : Type 0 where
  connect : Conn → Input
  packet : ℕ → Packet → Input
  timeout pings ends forgets announces : ℕ → Input
  game_ping : ℕ → Bool → Bool → Input
  irc_says : Bytes → Bytes → Input
  irc_joins irc_leaves : Bytes → Input
  relay_connected relay_closed : Bytes → Input
  shut_down clean_up : Input
  clock : ℕ → Input
  randomness : Option Bytes → Input
  irc_takes : Input

abbrev drop_first {ℓ} : {A : Type ℓ} → List A → List A
drop_first [] = []
drop_first (x ∷ xs) = xs

unfoldable pub react : Input → Server → Server
react (connect a) s = new_connection a s
react (packet p pkg) s = receive p pkg s
react (timeout p) s = disconnect p (send_packet p client_timeout s)
react (pings p) s = ping_timer p s
react (ends p) s = stream_ended p s
react (forgets p) s = forget_client p s
react (announces p) s = announce_now p s
react (game_ping g first answer) s = (ping_turn g first answer s).1
react (irc_says nick m) s = irc_message nick m s
react (irc_joins nick) s = irc_join nick s
react (irc_leaves nick) s = irc_leave nick s
react (relay_connected n) s = game_connected n s
react (relay_closed n) s = game_closed n s
react shut_down s = shutdown s
react clean_up s = cleanup s
react (clock d) s = record s { now = s.now + d }
react (randomness r) s = record s { random = r }
react irc_takes s = record s { messages_to_irc = drop_first s.messages_to_irc }

-- Nothing happens in a process that has ended.
unfoldable pub step : Input → Server → Server
step i s = elim s.crashed [ true ↦ s | false ↦ react i s ]

unfoldable pub run : List Input → Server → Server
run [] s = s
run (i ∷ is) s = run is (step i s)
