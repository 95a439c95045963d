-- ===== src/Metaserver/Chat/Games.antt =====
-- wlms/client.go: CHAT and the commands of administrators keep the names of the listed games different.
use widelands_metaserver.Base.{
  ℕ, Bytes, bytes_eq, ◌==◌, length, Option-cases, inl, inr, if_cases, is_some, le_ℤ, str,
}
use widelands_metaserver.Packet.{Packet}
use widelands_metaserver.Metaserver.World.{is_superuser, Server, crash}
use widelands_metaserver.Metaserver.Clients.{has_client, has_irc_client, announce_now}
use widelands_metaserver.Metaserver.Banned.{ban_until, add_kicked_client, add_banned_client}
use widelands_metaserver.Metaserver.Handler.{Reply, cmd_packet_error, build20}
use widelands_metaserver.Metaserver.Games.{has_game, relay_remove_game}
use widelands_metaserver.Metaserver.Games.Names.{GamesFine, Fine-remove_game}
use widelands_metaserver.Metaserver.Games.Steps.{
  send-Fine, broadcast-Fine, disconnect-Fine, remove_client-Fine, to_irc-Fine, announce_now-Fine,
}
use widelands_metaserver.Metaserver.Auth.Cases.{string_cases}
use widelands_metaserver.Metaserver.Chat.{
  chat_public, no_such_player, chat_private, handle_chat, kick_client, ban_client, superuser_at,
  kick_other, cmd_kick, cmd_ban, split_space, cmd_warn, run_cmd, may_administrate, handle_cmd,
  handle_motd, handle_announcement,
}

abbrev Fine : Reply → Type 0
Fine r = GamesFine r.1

chat_public-Fine : (p : ℕ) (m : Bytes) (s : Server) → GamesFine s → GamesFine (chat_public p m s)
unfolding chat_public
chat_public-Fine p m s w = to_irc-Fine _ _ (
    broadcast-Fine _ _ (
      if_cases GamesFine (s.client_at p).was_announced {x = s} {y = announce_now p s} (λ _. w)
        (λ _. announce_now-Fine p s w)))

no_such_player-Fine :
    (p : ℕ) (name unsupported cmd : Bytes) (s : Server)
    → GamesFine s
    → GamesFine (no_such_player p name unsupported cmd s)
unfolding no_such_player
no_such_player-Fine p name unsupported cmd s w =
    if_cases GamesFine (is_some (has_irc_client name s)) (λ _. send-Fine p _ s w)
      λ _.
        if_cases GamesFine (le_ℤ build20 (s.client_at p).protocol_version) (λ _. send-Fine p _ s w)
          (λ _. w)

chat_private-Fine :
    (p : ℕ) (m n : Bytes) (s : Server) → GamesFine s → GamesFine (chat_private p m n s)
unfolding chat_private
chat_private-Fine p m n s w = elim (Option-cases (has_client n s)) [
  | inl e ↦ rw (e, chat_private) (no_such_player-Fine p n _ _ s w)
  | inr (r, e) ↦
      rw (e, chat_private) (if_cases GamesFine (r == p) (λ _. w) (λ _. send-Fine r _ s w))
]

pub handle_chat-Fine :
    (p : ℕ) (pkg : Packet) (s : Server) → GamesFine s → Fine (handle_chat p pkg s)
unfolding handle_chat
handle_chat-Fine p pkg s w =
    string_cases Fine cmd_packet_error pkg s _ (λ m. w)
      λ message pkg'.
        string_cases Fine cmd_packet_error pkg' s _ (λ m. w)
          λ receiver _.
            if_cases Fine (length receiver == 0) (λ _. chat_public-Fine p message s w)
              (λ _. chat_private-Fine p message receiver s w)

ban_until-Fine : (r t : ℕ) (s : Server) → GamesFine s → GamesFine (ban_until r t s)
unfolding ban_until crash
ban_until-Fine r t s w = elim (Option-cases (s.client_at r).conn) [
  | inl e ↦ rw (e, ban_until) (record { distinct = w.distinct; fresh = w.fresh })
  | inr (a, e) ↦ rw (e, ban_until) (record { distinct = w.distinct; fresh = w.fresh })
]

kick_client-Fine : (p r : ℕ) (s : Server) → GamesFine s → GamesFine (kick_client p r s)
unfolding kick_client add_kicked_client
kick_client-Fine p r s w =
    send-Fine p _ _ (remove_client-Fine r _ (disconnect-Fine r _ (ban_until-Fine r _ s w)))

ban_client-Fine : (p r : ℕ) (s : Server) → GamesFine s → GamesFine (ban_client p r s)
unfolding ban_client add_banned_client
ban_client-Fine p r s w =
    send-Fine p _ _ (remove_client-Fine r _ (disconnect-Fine r _ (ban_until-Fine r _ s w)))

relay_remove-Fine : (n : Bytes) (s : Server) → GamesFine s → GamesFine (relay_remove_game n s)
unfolding relay_remove_game
relay_remove-Fine n s w = record { distinct = w.distinct; fresh = w.fresh }

kick_other-Fine : (p : ℕ) (n : Bytes) (s : Server) → GamesFine s → GamesFine (kick_other p n s)
unfolding kick_other
kick_other-Fine p n s w = elim (Option-cases (has_game n s)) [
  | inr (g, e) ↦
      rw (e, kick_other)
        (Fine-remove_game g _ (
          if_cases GamesFine (s.game_at g).uses_relay {x = relay_remove_game n s} {y = s}
            (λ _. relay_remove-Fine n s w) (λ _. w)))
  | inl e ↦
      rw (e, kick_other)
        (if_cases GamesFine (superuser_at s (has_client n s)) (λ _. send-Fine p _ s w)
          (λ _. no_such_player-Fine p n _ _ s w))
]

cmd_kick-Fine : (p : ℕ) (n : Bytes) (s : Server) → GamesFine s → GamesFine (cmd_kick p n s)
unfolding cmd_kick
cmd_kick-Fine p n s w = elim (Option-cases (has_client n s)) [
  | inl e ↦ rw (e, cmd_kick) (kick_other-Fine p n s w)
  | inr (r, e) ↦
      rw (e, cmd_kick)
        (if_cases GamesFine (is_superuser (s.client_at r).permissions)
          (λ _. kick_other-Fine p n s w) (λ _. kick_client-Fine p r s w))
]

cmd_ban-Fine : (p : ℕ) (n : Bytes) (s : Server) → GamesFine s → GamesFine (cmd_ban p n s)
unfolding cmd_ban
cmd_ban-Fine p n s w = elim (Option-cases (has_client n s)) [
  | inl e ↦ rw (e, cmd_ban) (no_such_player-Fine p n _ _ s w)
  | inr (r, e) ↦
      rw (e, cmd_ban)
        (if_cases GamesFine (is_superuser (s.client_at r).permissions) (λ _. send-Fine p _ s w)
          (λ _. ban_client-Fine p r s w))
]

cmd_warn-Fine : (p : ℕ) (params : Bytes) (s : Server) → GamesFine s → Fine (cmd_warn p params s)
unfolding cmd_warn
cmd_warn-Fine p params s w = elim (Option-cases (split_space params)) [
  | inl e ↦ rw (e, cmd_warn) w
  | inr ((n, m), e) ↦ elim (Option-cases (has_client n s)) [
    | inl f ↦ rw (e, cmd_warn, f) (no_such_player-Fine p n _ _ s w)
    | inr (r, f) ↦ rw (e, cmd_warn, f) (send-Fine r _ s w)
  ]
]

run_cmd-Fine :
    (p : ℕ) (cmd params : Bytes) (s : Server) → GamesFine s → Fine (run_cmd p cmd params s)
unfolding run_cmd
run_cmd-Fine p cmd params s w =
    if_cases Fine (bytes_eq cmd (str "kick")) (λ _. cmd_kick-Fine p params s w)
      λ _.
        if_cases Fine (bytes_eq cmd (str "ban")) (λ _. cmd_ban-Fine p params s w)
          λ _. if_cases Fine (bytes_eq cmd (str "warn")) (λ _. cmd_warn-Fine p params s w) (λ _. w)

pub handle_cmd-Fine : (p : ℕ) (pkg : Packet) (s : Server) → GamesFine s → Fine (handle_cmd p pkg s)
unfolding handle_cmd
handle_cmd-Fine p pkg s w =
    string_cases Fine cmd_packet_error pkg s _ (λ m. w)
      λ cmd pkg'.
        string_cases Fine cmd_packet_error pkg' s _ (λ m. w)
          λ params _.
            if_cases Fine (may_administrate p s) (λ _. run_cmd-Fine p cmd params s w) (λ _. w)

pub handle_motd-Fine :
    (p : ℕ) (pkg : Packet) (s : Server) → GamesFine s → Fine (handle_motd p pkg s)
unfolding handle_motd
handle_motd-Fine p pkg s w =
    string_cases Fine cmd_packet_error pkg s _ (λ m. w)
      λ m _.
        if_cases Fine (may_administrate p s)
          (λ _. broadcast-Fine _ _ (record { distinct = w.distinct; fresh = w.fresh })) (λ _. w)

pub handle_announcement-Fine :
    (p : ℕ) (pkg : Packet) (s : Server) → GamesFine s → Fine (handle_announcement p pkg s)
unfolding handle_announcement
handle_announcement-Fine p pkg s w =
    string_cases Fine cmd_packet_error pkg s _ (λ m. w)
      λ m _. if_cases Fine (may_administrate p s) (λ _. broadcast-Fine _ s w) (λ _. w)
