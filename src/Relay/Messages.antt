-- ===== src/Relay/Messages.antt =====
-- wlnr/game.go and wlnr/server.go: the messages of a new connection, of a player and of the host.
pub mod Between
pub mod Ids
pub mod Sending
pub mod Forward
use widelands_metaserver.Base.{
  ℕ, zero, suc, ◌+◌, ◌-◌, ◌*◌, ◌/◌, ◌%◌, Bool, true, false, not, Option, none, some, List, [], ◌∷◌,
  ◌++◌, leb, ltb, ◌==◌, if◌then◌else◌, length, Bytes, str, bytes_eq,
}
use widelands_metaserver.Relay.State.{
  relay_protocol_version, hello, disconnect_code, pong, round_trip_time_request,
  round_trip_time_response, to_clients, from_client, to_host, from_host, Client, Game, Server,
  crash, send_command, disconnect, handle_pong_seq, Read, got, eof, broken, read_uint8, read_string,
  read_packet, consume, nanoseconds,
}
use widelands_metaserver.Relay.Games.{find_game, disconnect_client, add_client}

abbrev pub protocol_violation : Bytes
protocol_violation = str "PROTOCOL_VIOLATION"

-- Server.dealWithNewConnection: the reads in order, each after the first two checks.
unfoldable pub join_game : ℕ → ℕ → Bytes → Bytes → Server → Server
join_game c version name password s = elim (find_game s.game_at name s.games) [
  | none ↦ disconnect c (str "GAME_UNKNOWN") s
  | some g ↦ add_client g c version password s
]

unfoldable pub read_names : ℕ → ℕ → Bytes → Server → Server
read_names c version r s = elim (read_string r) [
  | got name r' ↦ elim (read_string r') [
    | got password r'' ↦ join_game c version name password (consume c r'' s)
    | _ ↦ disconnect c protocol_violation s
  ]
  | _ ↦ disconnect c protocol_violation s
]

unfoldable pub read_version : ℕ → Bytes → Server → Server
read_version c r s = elim (read_uint8 r) [
  | got version r' ↦
      if version == relay_protocol_version
      then read_names c version r' s
      else disconnect c (str "WRONG_VERSION") s
  | _ ↦ disconnect c protocol_violation s
]

unfoldable pub deal_with_new_connection : ℕ → Server → Server
deal_with_new_connection c s = elim (read_uint8 (s.client_at c).reader) [
  | got cmd r ↦ if cmd == hello then read_version c r s else disconnect c protocol_violation s
  | _ ↦ disconnect c protocol_violation s
]

-- Game.getClient
unfoldable pub get_client : (ℕ → Client) → ℕ → List ℕ → Option ℕ
get_client at id [] = none
get_client at id (c ∷ cs) = if (at c).id == id then some c else get_client at id cs

-- Game.handlePong: whether the sequence number could be read.
unfoldable pub handle_pong : ℕ → ℕ → Server → Server
handle_pong g c s = elim (read_uint8 (s.client_at c).reader) [
  | got seq r ↦ handle_pong_seq c seq (consume c r s)
  | _ ↦ disconnect_client g c protocol_violation s
]

abbrev pub at_most_255 : ℕ → ℕ
at_most_255 n = if ltb n 255 then n else 255

-- Game.addClientRTT: the round trip in milliseconds, the age of the last pong in seconds.
unfoldable pub rtt_entry : ℕ → Client → Bytes
rtt_entry now c =
    c.id
    ∷ at_most_255 (c.rtt_last_ping / 1000000)
    ∷ at_most_255 ((now - c.time_last_pong) / nanoseconds)
    ∷ []

unfoldable pub rtt_entries : ℕ → (ℕ → Client) → List ℕ → Bytes
rtt_entries now at [] = []
rtt_entries now at (c ∷ cs) = rtt_entry now (at c) ++ rtt_entries now at cs

-- The host, if there is one, and the players.
abbrev pub members : Game → List ℕ
members game = elim game.host [ none ↦ game.clients | some h ↦ h ∷ game.clients ]

-- Game.sendRTTs
unfoldable pub send_rtts : ℕ → ℕ → Server → Server
send_rtts g receiver s =
    let ms = members (s.game_at g) in
    send_command receiver
      (round_trip_time_response ∷ (length ms % 256) ∷ rtt_entries s.now s.client_at ms) s

-- A packet of a player for the host. If the host is gone, the code follows a nil pointer.
unfoldable pub forward_to_host : ℕ → ℕ → Bytes → Server → Server
forward_to_host g c pkg s = elim (s.game_at g).host [
  | none ↦ crash s
  | some h ↦ send_command h (from_client ∷ (s.client_at c).id ∷ pkg) s
]

-- The switch of Game.handleClientMessages: whether the loop goes on, and the state.
unfoldable pub client_command : ℕ → ℕ → ℕ → Server → Bool × Server
client_command g c command s =
    if command == to_host
    then (elim (read_packet (s.client_at c).reader) [
      | got pkg r ↦ (true, forward_to_host g c pkg (consume c r s))
      | _ ↦ (false, disconnect_client g c protocol_violation s)
    ])
    else if command == disconnect_code
    then (false, disconnect_client g c (str "NORMAL") s)
    else if command == pong
    then (true, handle_pong g c s)
    else if command == round_trip_time_request
    then (true, send_rtts g c s)
    else (true, s)

-- One turn of Game.handleClientMessages.
unfoldable pub client_turn : ℕ → ℕ → Server → Bool × Server
client_turn g c s = elim (read_uint8 (s.client_at c).reader) [
  | got command r ↦ client_command g c command (consume c r s)
  | eof ↦ (false, disconnect_client g c (str "NORMAL") s)
  | broken ↦ (false, disconnect_client g c protocol_violation s)
]

-- The players that the host names, up to a zero byte; an unknown id is passed over.
unfoldable pub read_destinations : (ℕ → Client) → List ℕ → Bytes → Read (List ℕ)
read_destinations at cs [] = eof
read_destinations at cs (id ∷ r) =
    let rest : Read (List ℕ) = elim (read_destinations at cs r) [
      | got ds r' ↦ got (elim (get_client at id cs) [ none ↦ ds | some c ↦ c ∷ ds ]) r'
      | eof ↦ eof
      | broken ↦ broken
    ] in
    if id == 0 then got [] r else rest

unfoldable pub send_to_all : List ℕ → Bytes → Server → Server
send_to_all [] cmd s = s
send_to_all (c ∷ cs) cmd s = send_to_all cs cmd (send_command c cmd s)

-- The case kToClients of Game.handleHostMessages.
unfoldable pub forward_to_clients : ℕ → ℕ → Server → Bool × Server
forward_to_clients g h s =
    elim (read_destinations s.client_at (s.game_at g).clients (s.client_at h).reader) [
      | got ds r ↦ elim (read_packet r) [
        | got pkg r' ↦ (true, send_to_all ds (from_host ∷ pkg) (consume h r' s))
        | _ ↦ (false, disconnect_client g h protocol_violation s)
      ]
      | _ ↦ (false, disconnect_client g h protocol_violation s)
    ]

-- The switch of Game.handleHostMessages.
unfoldable pub host_command : ℕ → ℕ → ℕ → Server → Bool × Server
host_command g h command s =
    if command == to_clients
    then forward_to_clients g h s
    else if command == disconnect_code
    then (false, disconnect_client g h (str "NORMAL") s)
    else if command == pong
    then (true, handle_pong g h s)
    else if command == round_trip_time_request
    then (true, send_rtts g h s)
    else (true, s)

-- One turn of Game.handleHostMessages.
unfoldable pub host_turn : ℕ → Server → Bool × Server
host_turn g s = elim (s.game_at g).host [
  | none ↦ (false, s)
  | some h ↦ elim (read_uint8 (s.client_at h).reader) [
    | got command r ↦ host_command g h command (consume h r s)
    | eof ↦ (false, disconnect_client g h (str "NORMAL") s)
    | broken ↦ (false, disconnect_client g h protocol_violation s)
  ]
]
