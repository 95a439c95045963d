-- ===== src/Metaserver/Lobby.antt =====
-- wlms/client.go: DISCONNECT, PONG, CLIENTS, GAMES and the GAME_ commands.
pub mod Lists
pub mod Games
use widelands_metaserver.Base.{
  ℕ, Bool, true, false, not, ◌&&◌, ◌||◌, Option, none, some, List, [], ◌∷◌, ◌++◌, ◌==◌,
  if◌then◌else◌, is_some, length, pos, lt_ℤ, eq_ℤ, Bytes, str, bytes_eq,
}
use widelands_metaserver.Packet.{Field, int, text, bool, null, Packet, ok, err, read_int}
use widelands_metaserver.Metaserver.World.{
  connectable, running, is_irc, is_superuser, is_registered, permissions_string, Client, Game,
  AddressPair, Server, crash,
}
use widelands_metaserver.Metaserver.Clients.{
  send_packet, disconnect, remove_client, has_client, active_clients,
}
use widelands_metaserver.Metaserver.Games.{
  game_state_eq, has_game, new_game, set_game, set_game_state, relay_create_game,
}
use widelands_metaserver.Metaserver.Handler.{
  cmd_packet_error, invalid_packet_error, Reply, done, fail, build19, build20, with_string,
}

-- Client.Handle_DISCONNECT
unfoldable pub handle_disconnect : ℕ → Packet → Server → Reply
handle_disconnect p pkg s =
    with_string cmd_packet_error pkg s
      λ _ _. done (remove_client p (disconnect p (set_game p none s)))

-- Client.Handle_PONG
unfoldable pub handle_pong : ℕ → Packet → Server → Reply
handle_pong p pkg s = done s

-- Client.Handle_GAME_DISCONNECT
unfoldable pub handle_game_disconnect : ℕ → Packet → Server → Reply
handle_game_disconnect p pkg s = done (set_game p none s)

-- Client.Handle_GAME_START
unfoldable pub handle_game_start : ℕ → Packet → Server → Reply
handle_game_start p pkg s = elim (s.client_at p).game [
  | none ↦ (some invalid_packet_error, s)
  | some g ↦
      if bytes_eq (s.game_at g).host (s.client_at p).user_name
      then done (set_game_state g running (send_packet p (text (str "GAME_START") ∷ []) s))
      else fail (str "DEFICIENT_PERMISSION") s
]

-- Whether the callbacks of Handle_CLIENTS skip a client.
unfoldable pub is_hidden : (ℕ → Client) → ℕ → ℕ → Bool
is_hidden at p q =
    (eq_ℤ (at p).protocol_version build19 && is_irc (at q).permissions)
    || (not (at q).was_announced && not (q == p))

unfoldable pub shown_clients : (ℕ → Client) → ℕ → List ℕ → List ℕ
shown_clients at p [] = []
shown_clients at p (q ∷ qs) =
    if is_hidden at p q then shown_clients at p qs else q ∷ shown_clients at p qs

abbrev pub game_name : Server → Option ℕ → Bytes
game_name s none = []
game_name s (some g) = (s.game_at g).name

-- The slots of one client. The last of five is written for versions below 4 only.
unfoldable pub client_row : Server → ℕ → ℕ → List Field
client_row s p q =
    let v = (s.client_at p).protocol_version in
    let c = s.client_at q in
    text c.user_name
    ∷ text c.build_id
    ∷ text (game_name s c.game)
    ∷ text (permissions_string c.permissions)
    ∷ (if lt_ℤ v build20 then (if lt_ℤ v (pos 4) then text [] else null) ∷ [] else [])

unfoldable pub client_rows : Server → ℕ → List ℕ → List Field
client_rows s p [] = []
client_rows s p (q ∷ qs) = client_row s p q ++ client_rows s p qs

-- The slice that Handle_CLIENTS fills.
unfoldable pub clients_answer : Server → ℕ → List Field
clients_answer s p =
    let shown = shown_clients s.client_at p (active_clients s.client_at s.clients) in
    text (str "CLIENTS") ∷ int (pos (length shown)) ∷ client_rows s p shown

-- Client.Handle_CLIENTS
unfoldable pub handle_clients : ℕ → Packet → Server → Reply
handle_clients p pkg s = done (send_packet p (clients_answer s p) s)

-- strings.HasPrefix
unfoldable pub has_prefix : Bytes → Bytes → Bool
has_prefix s [] = true
has_prefix [] (c ∷ cs) = false
has_prefix (x ∷ xs) (c ∷ cs) = (x == c) && has_prefix xs cs

unfoldable pub is_release_build : Bytes → Bool
is_release_build b = has_prefix b (str "build-")

unfoldable pub versions_match : Client → Game → Bool
versions_match c g =
    bytes_eq g.build_id c.build_id
    || (not (is_release_build c.build_id) && not (is_release_build g.build_id))

-- What a client is told of the state of a game.
unfoldable pub game_status : Client → Game → Field
game_status c g =
    if eq_ℤ c.protocol_version build19
    then bool
        (not g.uses_relay && (game_state_eq g.state connectable && bytes_eq g.build_id c.build_id))
    else if not g.uses_relay || not (versions_match c g)
    then text (str "CLOSED")
    else if game_state_eq g.state connectable
    then text (str "SETUP")
    else if game_state_eq g.state running
    then text (str "RUNNING")
    else text (str "CLOSED")

unfoldable pub game_rows : Client → (ℕ → Game) → List ℕ → List Field
game_rows c at [] = []
game_rows c at (g ∷ gs) =
    text (at g).name ∷ text (at g).build_id ∷ game_status c (at g) ∷ game_rows c at gs

unfoldable pub games_answer : Server → ℕ → List Field
games_answer s p =
    text (str "GAMES") ∷ int (pos (length s.games)) ∷ game_rows (s.client_at p) s.game_at s.games

-- Client.Handle_GAMES
unfoldable pub handle_games : ℕ → Packet → Server → Reply
handle_games p pkg s = done (send_packet p (games_answer s p) s)

-- The two addresses, that of the version which the client uses first.
unfoldable pub addresses : Bool → AddressPair → List Field
addresses true a = text a.ipv4 ∷ bool true ∷ text a.ipv6 ∷ []
addresses false a = text a.ipv6 ∷ bool true ∷ text a.ipv4 ∷ []

-- A packet that ends in the addresses of the relay. Without a connection the code panics.
unfoldable pub send_addresses : ℕ → List Field → Server → Server
send_addresses p d s = elim (s.client_at p).conn [
  | none ↦ crash s
  | some a ↦ send_packet p (d ++ addresses a.is_ipv4 s.relay_address) s
]

-- The challenge for the host of a new game on the relay, and the response that is expected.
unfoldable pub host_challenge : ℕ → Server → Option (Bytes × Bytes)
host_challenge p s =
    let c = s.client_at p in
    if is_registered c.permissions || is_superuser c.permissions
    then s.user_db.challenge_response_pair_from_username s.random c.user_name
    else s.user_db.challenge_response_pair_from_secret s.random c.nonce

-- A game that the relay has created is listed, and the host is told.
unfoldable pub relay_game_opened : ℕ → Bytes → Bytes → Server → Server
relay_game_opened p name challenge s =
    let c = s.client_at p in
    let (g, s') = new_game c.user_name c.build_id name true s in
    set_game p (some g) (send_addresses p (text (str "GAME_OPEN") ∷ text challenge ∷ []) s')

unfoldable pub open_on_relay : ℕ → Bytes → Server → Reply
open_on_relay p name s = elim (host_challenge p s) [
  | none ↦ done (disconnect p s)
  | some (challenge, response) ↦
      let (created, s') = relay_create_game name response s in
      if created then done (relay_game_opened p name challenge s') else fail (str "RELAY_ERROR") s'
]

-- A client of build 19 hosts the game on its own computer.
unfoldable pub open_on_host : ℕ → Bytes → Server → Server
open_on_host p name s =
    let c = s.client_at p in
    let (g, s') = new_game c.user_name c.build_id name false s in set_game p (some g) s'

unfoldable pub open_game : ℕ → Bytes → Server → Reply
open_game p name s =
    if is_some (has_game name s)
    then fail (str "GAME_EXISTS") s
    else if eq_ℤ (s.client_at p).protocol_version build19
    then done (open_on_host p name s)
    else open_on_relay p name s

-- Client.Handle_GAME_OPEN: build 19 sends the number of players too.
unfoldable pub handle_game_open : ℕ → Packet → Server → Reply
handle_game_open p pkg s = with_string cmd_packet_error pkg s λ name pkg'.
    if eq_ℤ (s.client_at p).protocol_version build19
    then (elim (read_int pkg') [ err m ↦ fail m s | ok _ ↦ open_game p name s ])
    else open_game p name s

-- The packet with the address of a self-hosted game. A host that is not there is a nil pointer.
unfoldable pub send_host_ip : ℕ → ℕ → Server → Server
send_host_ip p g s = elim (has_client (s.game_at g).host s) [
  | none ↦ crash s
  | some h ↦ elim (s.client_at h).conn [
    | none ↦ crash s
    | some a ↦ send_packet p (text (str "GAME_CONNECT") ∷ text a.ip ∷ []) s
  ]
]

unfoldable pub connect_to_game : ℕ → ℕ → Server → Reply
connect_to_game p g s =
    if eq_ℤ (s.client_at p).protocol_version build19
    then (if (s.game_at g).uses_relay
        then fail (str "NO_SUCH_GAME") s
        else done (set_game p (some g) (send_host_ip p g s)))
    else done (set_game p (some g) (send_addresses p (text (str "GAME_CONNECT") ∷ []) s))

-- Client.Handle_GAME_CONNECT
unfoldable pub handle_game_connect : ℕ → Packet → Server → Reply
handle_game_connect p pkg s = with_string cmd_packet_error pkg s λ name _. elim (has_game name s) [
  | none ↦ fail (str "NO_SUCH_GAME") s
  | some g ↦ connect_to_game p g s
]
