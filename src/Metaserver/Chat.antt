-- ===== src/Metaserver/Chat.antt =====
-- wlms/client.go: CHAT, and the commands of administrators: CMD, MOTD and ANNOUNCEMENT.
pub mod Rights
pub mod Games
use widelands_metaserver.Base.{
  ℕ, Bool, false, Option, none, some, List, [], ◌∷◌, ◌++◌, ◌==◌, if◌then◌else◌, is_some, length,
  le_ℤ, Bytes, str, bytes_eq,
}
use widelands_metaserver.Packet.{Field, text, Packet}
use widelands_metaserver.Metaserver.World.{is_superuser, Server}
use widelands_metaserver.Metaserver.Clients.{
  send_packet, broadcast_to_connected_clients, broadcast_to_irc, disconnect, remove_client,
  has_client, has_irc_client, announce_now,
}
use widelands_metaserver.Metaserver.Games.{has_game, remove_game, relay_remove_game}
use widelands_metaserver.Metaserver.Banned.{add_kicked_client, add_banned_client}
use widelands_metaserver.Metaserver.Handler.{
  cmd_packet_error, Reply, done, fail, build20, system_chat, error_packet, with_string,
}

abbrev pub chat : Bytes → Bytes → Bytes → List Field
chat from message kind = text (str "CHAT") ∷ text from ∷ text message ∷ text kind ∷ []

-- A message to everybody.
unfoldable pub chat_public : ℕ → Bytes → Server → Server
chat_public p message s =
    let s₁ = if (s.client_at p).was_announced then s else announce_now p s in
    let name = (s₁.client_at p).user_name in
    broadcast_to_irc (name ++ (str ": " ++ message))
      (broadcast_to_connected_clients (chat name message (str "public")) s₁)

-- The answer where no player has a name: that it is an IRC user's, or nobody's.
unfoldable pub no_such_player : ℕ → Bytes → Bytes → Bytes → Server → Server
no_such_player p name unsupported cmd s =
    if is_some (has_irc_client name s)
    then send_packet p (system_chat unsupported) s
    else if le_ℤ build20 (s.client_at p).protocol_version
    then send_packet p (error_packet cmd (str "NO_SUCH_USER")) s
    else s

abbrev pub no_private : Bytes
no_private = str "Private messages to IRC users are not supported."

-- A message to one player.
unfoldable pub chat_private : ℕ → Bytes → Bytes → Server → Server
chat_private p message receiver s = elim (has_client receiver s) [
  | none ↦ no_such_player p receiver no_private (str "CHAT") s
  | some r ↦
      if r == p then s else send_packet r (chat (s.client_at p).user_name message (str "private")) s
]

-- Client.Handle_CHAT
unfoldable pub handle_chat : ℕ → Packet → Server → Reply
handle_chat p pkg s = with_string cmd_packet_error pkg s λ message pkg'.
    with_string cmd_packet_error pkg' s λ receiver _.
      if length receiver == 0
      then done (chat_public p message s)
      else done (chat_private p message receiver s)

unfoldable pub kick_client : ℕ → ℕ → Server → Server
kick_client p r s =
    send_packet p (system_chat (str "Kicked the user for 5 minutes."))
      (remove_client r (disconnect r (add_kicked_client r s)))

unfoldable pub ban_client : ℕ → ℕ → Server → Server
ban_client p r s =
    send_packet p (system_chat (str "Banning the IP of the user for 24 hours."))
      (remove_client r (disconnect r (add_banned_client r s)))

abbrev pub superuser_at : Server → Option ℕ → Bool
superuser_at s none = false
superuser_at s (some r) = is_superuser (s.client_at r).permissions

-- The case "kick" where the name is not that of a player who can be kicked.
unfoldable pub kick_other : ℕ → Bytes → Server → Server
kick_other p name s = elim (has_game name s) [
  | some g ↦ remove_game g (if (s.game_at g).uses_relay then relay_remove_game name s else s)
  | none ↦
      if superuser_at s (has_client name s)
      then send_packet p (system_chat (str "Kicking admin users is not supported.")) s
      else no_such_player p name (str "Kicking IRC users is not supported.") (str "CMD") s
]

-- The case "kick": players first, then games.
unfoldable pub cmd_kick : ℕ → Bytes → Server → Server
cmd_kick p name s = elim (has_client name s) [
  | none ↦ kick_other p name s
  | some r ↦
      if is_superuser (s.client_at r).permissions then kick_other p name s else kick_client p r s
]

-- The case "ban".
unfoldable pub cmd_ban : ℕ → Bytes → Server → Server
cmd_ban p name s = elim (has_client name s) [
  | none ↦ no_such_player p name (str "Banning IRC users is not supported.") (str "CMD") s
  | some r ↦
      if is_superuser (s.client_at r).permissions
      then send_packet p (system_chat (str "Banning admin users is not supported.")) s
      else ban_client p r s
]

-- strings.SplitN(s, " ", 2), if it gives two parts.
unfoldable pub split_space : Bytes → Option (Bytes × Bytes)
split_space [] = none
split_space (c ∷ cs) =
    let rest : Option (Bytes × Bytes) = elim (split_space cs) [
      | none ↦ none
      | some (a, b) ↦ some (c ∷ a, b)
    ] in
    if c == b' ' then some ([], cs) else rest

-- The case "warn".
unfoldable pub cmd_warn : ℕ → Bytes → Server → Reply
cmd_warn p params s = elim (split_space params) [
  | none ↦ fail (str "INVALID_CMD_PARAMETERS") s
  | some (name, message) ↦ elim (has_client name s) [
    | none ↦ done (no_such_player p name no_private (str "CMD") s)
    | some r ↦ done (send_packet r (system_chat message) s)
  ]
]

-- The switch of Handle_CMD.
unfoldable pub run_cmd : ℕ → Bytes → Bytes → Server → Reply
run_cmd p cmd params s =
    if bytes_eq cmd (str "kick")
    then done (cmd_kick p params s)
    else if bytes_eq cmd (str "ban")
    then done (cmd_ban p params s)
    else if bytes_eq cmd (str "warn")
    then cmd_warn p params s
    else fail (str "UNKNOWN_COMMAND") s

abbrev pub may_administrate : ℕ → Server → Bool
may_administrate p s = is_superuser (s.client_at p).permissions

-- Client.Handle_CMD
unfoldable pub handle_cmd : ℕ → Packet → Server → Reply
handle_cmd p pkg s = with_string cmd_packet_error pkg s λ cmd pkg'.
    with_string cmd_packet_error pkg' s λ params _.
      if may_administrate p s then run_cmd p cmd params s else fail (str "DEFICIENT_PERMISSION") s

-- Client.Handle_MOTD
unfoldable pub handle_motd : ℕ → Packet → Server → Reply
handle_motd p pkg s = with_string cmd_packet_error pkg s λ message _.
    if may_administrate p s
    then done (broadcast_to_connected_clients (system_chat message) (record s { motd = message }))
    else fail (str "DEFICIENT_PERMISSION") s

-- Client.Handle_ANNOUNCEMENT
unfoldable pub handle_announcement : ℕ → Packet → Server → Reply
handle_announcement p pkg s = with_string cmd_packet_error pkg s λ message _.
    if may_administrate p s
    then done (broadcast_to_connected_clients (system_chat message) s)
    else fail (str "DEFICIENT_PERMISSION") s
