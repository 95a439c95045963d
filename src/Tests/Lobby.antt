-- ===== src/Tests/Lobby.antt =====
-- A server of wlms with some clients, for the examples.
use widelands_metaserver.Base.{
  ℕ, true, false, none, some, [], ◌∷◌, ◌==◌, if◌then◌else◌, pos, Bytes, ◌*◌,
}
use widelands_metaserver.Metaserver.World.{
  State, handshake, connected, Permissions, unregistered, registered, superuser, irc, connectable,
  Conn, Client, Game, AddressPair, UserDb, Relay, Server, nanoseconds,
}
use widelands_metaserver.Metaserver.Run.{create_server}
use widelands_metaserver.Users.{Users, in_memory_db}

-- In place of SHA-1, a function that puts a byte in front.
abbrev pub toy_sha1 : Bytes → Bytes
toy_sha1 bs = 7 ∷ bs

abbrev pub admin_name : Bytes
admin_name = b'a' ∷ []

abbrev pub player_name : Bytes
player_name = b'p' ∷ []

abbrev pub irc_name : Bytes
irc_name = b'i' ∷ []

abbrev pub new_name : Bytes
new_name = b'n' ∷ []

abbrev pub accounts : Users
accounts =
    (admin_name, record { password = b'1' ∷ []; permissions = superuser })
    ∷ (new_name, record { password = b'2' ∷ []; permissions = registered })
    ∷ []

abbrev pub toy_db : UserDb
toy_db = in_memory_db toy_sha1 accounts

abbrev pub address : Conn
address = record { ip = b'9' ∷ []; is_ipv4 = true }

abbrev pub player : State → Permissions → Bytes → Client
player st perms n = record {
  conn = some address;
  state = st;
  time_last_message = 0;
  protocol_version = pos 5;
  permissions = perms;
  user_name = n;
  build_id = b'b' ∷ [];
  nonce = n;
  expected_response = [];
  game = none;
  start_to_ping_timer = some (15 * nanoseconds);
  timeout_timer = some (120 * nanoseconds);
  waiting_for_pong = false;
  pending_login = none;
  replace_candidates = none;
  was_announced = true;
}

abbrev pub irc_user : Client
irc_user = record (player connected irc irc_name) {
  conn = none;
  nonce = b'c' ∷ [];
  start_to_ping_timer = none;
  timeout_timer = none;
}

abbrev pub client_of : ℕ → Client
client_of q =
    if q == 0
    then player connected superuser admin_name
    else if q == 1
    then player connected unregistered player_name
    else if q == 2
    then irc_user
    else player handshake unregistered new_name

abbrev pub game : Game
game = record {
  host = player_name;
  players = (player_name, true) ∷ [];
  name = b'g' ∷ [];
  build_id = b'b' ∷ [];
  state = connectable;
  uses_relay = false;
  time_last_activity = 0;
}

abbrev pub toy_relay : Relay
toy_relay = record { create_game = λ _ _. true; remove_game = λ _. true }

abbrev pub addresses : AddressPair
addresses = record { ipv4 = b'4' ∷ []; ipv6 = b'6' ∷ [] }

-- An administrator, a player, an IRC user, and client number 3, who is not listed yet.
abbrev pub lobby : Server
lobby = record (create_server toy_db toy_relay addresses (client_of 3) game) {
  clients = 0 ∷ 1 ∷ 2 ∷ [];
  client_at = client_of;
  games = 0 ∷ 1 ∷ [];
  next_client = 4;
  next_game = 2;
  random = some (1 ∷ []);
}
