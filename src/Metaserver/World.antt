-- ===== src/Metaserver/World.antt =====
-- The state of the metaserver: the types of wlms/client.go, game.go, server.go and userdb.go.
-- Pointers to clients and games are numbers, and what they point to is in two heaps of the server.
use widelands_metaserver.Base.{
  ℕ, Bool, true, false, Option, List, ℤ, Bytes, str, ◌==◌, if◌then◌else◌,
}
use widelands_metaserver.Packet.{Field}

pub data Permissions : Type 0 where
  unregistered registered superuser irc : Permissions

pub data State : Type 0 where
  handshake check_pwd connected recently_disconnected : State

pub data GameState : Type 0 where
  initial_setup not_connectable connectable running : GameState

-- Permissions.String
unfoldable pub permissions_string : Permissions → Bytes
permissions_string unregistered = str "UNREGISTERED"
permissions_string registered = str "REGISTERED"
permissions_string superuser = str "SUPERUSER"
permissions_string irc = str "IRC"

abbrev pub is_irc : Permissions → Bool
is_irc irc = true
is_irc _ = false

abbrev pub is_superuser : Permissions → Bool
is_superuser superuser = true
is_superuser _ = false

abbrev pub is_registered : Permissions → Bool
is_registered registered = true
is_registered _ = false

abbrev pub is_unregistered : Permissions → Bool
is_unregistered unregistered = true
is_unregistered _ = false

abbrev pub is_handshake : State → Bool
is_handshake handshake = true
is_handshake _ = false

abbrev pub is_check_pwd : State → Bool
is_check_pwd check_pwd = true
is_check_pwd _ = false

abbrev pub is_connected : State → Bool
is_connected connected = true
is_connected _ = false

abbrev pub is_recently_disconnected : State → Bool
is_recently_disconnected recently_disconnected = true
is_recently_disconnected _ = false

-- The remote address of a connection: the text of its IP, and whether `To4` gives an IPv4 address.
pub record Conn : Type 0 where
  pub ip : Bytes
  pub is_ipv4 : Bool

-- The timers are kept as the duration to which they were last reset, none for a nil pointer, which
-- IRC users have.
pub record Client : Type 0 where
  pub conn : Option Conn  -- none for IRC users
  pub state : State
  pub time_last_message : ℕ
  pub protocol_version : ℤ
  pub permissions : Permissions
  pub user_name : Bytes
  pub build_id : Bytes
  pub nonce : Bytes
  pub expected_response : Bytes
  pub game : Option ℕ
  pub start_to_ping_timer : Option ℕ
  pub timeout_timer : Option ℕ
  pub waiting_for_pong : Bool
  pub pending_login : Option ℕ
  pub replace_candidates : Option (List ℕ)  -- none for nil, which is not the empty slice
  pub was_announced : Bool

pub record Game : Type 0 where
  pub host : Bytes
  pub players : List (Bytes × Bool)
  pub name : Bytes
  pub build_id : Bytes
  pub state : GameState
  pub uses_relay : Bool
  pub time_last_activity : ℕ

pub record BannedIp : Type 0 where
  pub ip : Bytes
  pub until : ℕ

pub record AddressPair : Type 0 where
  pub ipv4 : Bytes
  pub ipv6 : Bytes

pub record Message : Type 0 where
  pub message : Bytes
  pub nick : Bytes

-- The interface UserDb. A challenge is made from the bytes that crypto/rand gives, none on its
-- error; the result is the challenge and the expected response.
pub record UserDb : Type 0 where
  pub contains_name : Bytes → Bool
  pub password_correct : Bytes → Bytes → Bool
  pub challenge_response_pair_from_username : Option Bytes → Bytes → Option (Bytes × Bytes)
  pub challenge_response_pair_from_secret : Option Bytes → Bytes → Option (Bytes × Bytes)
  pub downgraded_user_nonce : Bytes → Bytes → Bytes
  pub permissions : Bytes → Permissions

-- The interface relayinterface.Client: what the relay answers.
pub record Relay : Type 0 where
  pub create_game : Bytes → Bytes → Bool
  pub remove_game : Bytes → Bool

-- What the program does to the outside.
pub data Event : Type 0 where
  sent : ℕ → List Field → Event  -- a packet to the client
  closed : ℕ → Event  -- the connection of the client
  relay_create : Bytes → Bytes → Event
  relay_remove : Bytes → Event

-- The goroutines that a handler starts.
pub data Task : Type 0 where
  announce : ℕ → Task  -- Client.Announce
  ping_cycle : ℕ → Task  -- Game.pingCycle

pub record Server : Type 0 where
  pub clients : List ℕ
  pub games : List ℕ
  pub client_at : ℕ → Client
  pub game_at : ℕ → Game
  pub next_game : ℕ  -- the next pointer that `&Game{}` gives
  pub next_client : ℕ
  pub user_db : UserDb
  pub motd : Bytes
  pub client_sending_timeout : ℕ
  pub ping_cycle_time : ℕ
  pub game_initial_ping_timeout : ℕ
  pub game_ping_timeout : ℕ
  pub client_forget_timeout : ℕ
  pub messages_to_irc : List Message  -- the channel's buffer, oldest first
  pub relay : Relay
  pub relay_address : AddressPair
  pub banned : List BannedIp
  pub now : ℕ  -- time.Now, in nanoseconds since 1970
  pub random : Option Bytes  -- what the next rand.Read gives
  pub events : List Event  -- newest first
  pub tasks : List Task  -- newest first
  pub crashed : Bool  -- a panic or log.Fatal: the process has ended, and no later state counts

-- The write `*c = v` through a pointer to a client.
unfoldable pub put_client : ℕ → Client → Server → Server
put_client c v s = record s { client_at = λ q. if q == c then v else s.client_at q }

unfoldable pub put_game : ℕ → Game → Server → Server
put_game g v s = record s { game_at = λ q. if q == g then v else s.game_at q }

-- A panic, or log.Fatal.
unfoldable pub crash : Server → Server
crash s = record s { crashed = true }

abbrev pub nanoseconds : ℕ
nanoseconds = 1000000000
