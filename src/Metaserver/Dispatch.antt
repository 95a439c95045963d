-- ===== src/Metaserver/Dispatch.antt =====
-- wlms/client.go and wlms/server.go: the loop of DealWithNewConnection, the goroutines of the
-- server and its main loop, as one step for each thing that can happen.
pub mod Games
use widelands_metaserver.Base.{
  ℕ, suc, true, false, Option, none, some, List, [], ◌∷◌, if◌then◌else◌, is_some, pos, Bytes, str,
  bytes_eq,
}
use widelands_metaserver.Packet.{Field, text, Packet, ok, err, read_string}
use widelands_metaserver.Metaserver.World.{
  handshake, connected, unregistered, irc, is_recently_disconnected, Conn, Client, Server,
  put_client,
}
use widelands_metaserver.Metaserver.Clients.{send_packet, disconnect, remove_client, has_client}
use widelands_metaserver.Metaserver.Games.{pointer_eq, set_game}
use widelands_metaserver.Metaserver.Handler.{
  CmdError, cmd_packet_error, critical_cmd_packet_error, invalid_packet_error, Reply, modify_client,
  error_packet, restart_ping_loop,
}
use widelands_metaserver.Metaserver.Login.{name_of, login_done, check_candidates}
use widelands_metaserver.Metaserver.Auth.{
  successful_relogin, handle_login, handle_check_pwd, handle_pwd_challenge, handle_relogin,
}
use widelands_metaserver.Metaserver.Chat.{handle_chat, handle_cmd, handle_motd, handle_announcement}
use widelands_metaserver.Metaserver.Lobby.{
  handle_disconnect, handle_pong, handle_clients, handle_games, handle_game_open,
  handle_game_connect, handle_game_start, handle_game_disconnect,
}

-- The methods that MethodByName finds behind "Handle_".
unfoldable pub run_handler : Bytes → ℕ → Packet → Server → Reply
run_handler name p pkg s =
    if bytes_eq name (str "CHAT")
    then handle_chat p pkg s
    else if bytes_eq name (str "CMD")
    then handle_cmd p pkg s
    else if bytes_eq name (str "MOTD")
    then handle_motd p pkg s
    else if bytes_eq name (str "ANNOUNCEMENT")
    then handle_announcement p pkg s
    else if bytes_eq name (str "DISCONNECT")
    then handle_disconnect p pkg s
    else if bytes_eq name (str "PONG")
    then handle_pong p pkg s
    else if bytes_eq name (str "LOGIN")
    then handle_login p pkg s
    else if bytes_eq name (str "CHECK_PWD")
    then handle_check_pwd p pkg s
    else if bytes_eq name (str "PWD_CHALLENGE")
    then handle_pwd_challenge p pkg s
    else if bytes_eq name (str "RELOGIN")
    then handle_relogin p pkg s
    else if bytes_eq name (str "GAME_OPEN")
    then handle_game_open p pkg s
    else if bytes_eq name (str "GAME_CONNECT")
    then handle_game_connect p pkg s
    else if bytes_eq name (str "GAME_START")
    then handle_game_start p pkg s
    else if bytes_eq name (str "GAME_DISCONNECT")
    then handle_game_disconnect p pkg s
    else if bytes_eq name (str "CLIENTS")
    then handle_clients p pkg s
    else if bytes_eq name (str "GAMES")
    then handle_games p pkg s
    else (some invalid_packet_error, s)

-- What the loop does with the error of a handler.
unfoldable pub report : Bytes → ℕ → Option CmdError → Server → Server
report name p none s = s
report name p (some (cmd_packet_error what)) s = send_packet p (error_packet name what) s
report name p (some (critical_cmd_packet_error what)) s =
    disconnect p (send_packet p (error_packet name what) s)
report name p (some invalid_packet_error) s =
    disconnect p (send_packet p (error_packet (str "GARBAGE_RECEIVED") (str "INVALID_CMD")) s)

-- A login that waits for this client: the client has just shown that it is alive.
unfoldable pub deal_with_pending_login : ℕ → Server → Server
deal_with_pending_login p s = elim (s.client_at p).pending_login [
  | none ↦ s
  | some q ↦
      let refused =
        disconnect q
          (send_packet q (error_packet (str "RELOGIN") (str "CONNECTION_STILL_ALIVE")) s) in
      let s' =
        if is_some (s.client_at q).replace_candidates then check_candidates q s else refused in
      modify_client p (λ c. record c { pending_login = none }) s'
]

-- The loop on a packet.
unfoldable pub receive : ℕ → Packet → Server → Server
receive p pkg s₀ =
    let s = deal_with_pending_login p (
      modify_client p
        (λ c. record c {
          waiting_for_pong = false;
          start_to_ping_timer = some s₀.ping_cycle_time;
          timeout_timer = some s₀.client_sending_timeout;
        })
        s₀) in
    elim (read_string pkg) [
      | err _ ↦ disconnect p s
      | ok (name, pkg') ↦
          let (e, s') =
            run_handler name p pkg'
              (modify_client p (λ c. record c { time_last_message = s.now }) s) in
          report name p e s'
    ]

abbrev pub client_timeout : List Field
client_timeout = text (str "DISCONNECT") ∷ text (str "CLIENT_TIMEOUT") ∷ []

-- A login that waited for a client which did not answer.
unfoldable pub replace_silent : ℕ → ℕ → Server → Server
replace_silent p q s =
    let c = s.client_at p in
    if is_some (s.client_at q).replace_candidates
    then login_done q (
        remove_client p
          (modify_client q (λ d. record d { user_name = c.user_name; game = c.game }) s))
    else successful_relogin q p s

-- Client.failedPong
unfoldable pub failed_pong : ℕ → Server → Server
failed_pong p s =
    let s' = disconnect p (send_packet p client_timeout s) in
    elim (s'.client_at p).pending_login [ none ↦ s' | some q ↦ replace_silent p q s' ]

-- The loop when the connection ended.
unfoldable pub stream_ended : ℕ → Server → Server
stream_ended p s = if is_recently_disconnected (s.client_at p).state then s else failed_pong p s

-- The loop when the timer of the next ping fires.
unfoldable pub ping_timer : ℕ → Server → Server
ping_timer p s =
    if (s.client_at p).waiting_for_pong
    then failed_pong p s
    else restart_ping_loop p s.ping_cycle_time s

-- What runs some time after the loop has ended.
unfoldable pub forget_client : ℕ → Server → Server
forget_client p s =
    if pointer_eq (has_client (name_of p s) s) (some p)
    then remove_client p (set_game p none s)
    else s

-- newClient, and the start of DealWithNewConnection.
unfoldable pub new_client : Conn → Server → Client
new_client a s = record {
  conn = some a;
  state = handshake;
  time_last_message = 0;
  protocol_version = pos 0;
  permissions = unregistered;
  user_name = [];
  build_id = [];
  nonce = [];
  expected_response = [];
  game = none;
  start_to_ping_timer = some s.ping_cycle_time;
  timeout_timer = some s.client_sending_timeout;
  waiting_for_pong = false;
  pending_login = none;
  replace_candidates = none;
  was_announced = false;
}

-- NewIRCClient
unfoldable pub new_irc_client : Bytes → Client
new_irc_client nick = record {
  conn = none;
  state = connected;
  time_last_message = 0;
  protocol_version = pos 0;
  permissions = irc;
  user_name = nick;
  build_id = str "IRC";
  nonce = str "irc";
  expected_response = [];
  game = none;
  start_to_ping_timer = none;
  timeout_timer = none;
  waiting_for_pong = false;
  pending_login = none;
  replace_candidates = none;
  was_announced = true;
}

unfoldable pub allocate : Client → Server → Server
allocate c s = put_client s.next_client c (record s { next_client = suc s.next_client })
