-- ===== src/Tests/Commands.antt =====
-- Broadcasts, bans and the commands of wlms.
use widelands_metaserver.Base.{
  not, ◌||◌, [], ◌∷◌, ◌++◌, pos, eq_ℤ, ◌≡◌, refl, arith, ◌+◌, ◌*◌, length, leb,
}
use widelands_metaserver.Packet.{encodable}
use widelands_metaserver.Metaserver.World.{Server, nanoseconds}
use widelands_metaserver.Metaserver.Clients.{
  contains, broadcast_to_connected_clients, clients_update, announce_now, active_clients,
}
use widelands_metaserver.Metaserver.Clients.Broadcast.{receivers, sent_all, broadcast_eq}
use widelands_metaserver.Metaserver.Clients.Announce.{announce_now_result}
use widelands_metaserver.Metaserver.Banned.{add_kicked_client, add_banned_client, is_banned_client}
use widelands_metaserver.Metaserver.Banned.Laws.{banned_at, is_banned_client_iff, ban_lasts}
use widelands_metaserver.Metaserver.Lobby.{shown_clients, clients_answer}
use widelands_metaserver.Metaserver.Lobby.Lists.{n_fields, is_nil, clients_answer_shape}
use widelands_metaserver.Tests.Lobby.{address, lobby}

broadcast_eq_example : broadcast_to_connected_clients clients_update lobby ≡ record lobby {
  events = sent_all (receivers lobby.client_at lobby.clients) clients_update ++ lobby.events;
}
unfolding encodable
broadcast_eq_example = broadcast_eq clients_update lobby refl

announce_now_result_example :
    ((announce_now 1 lobby).client_at 1).was_announced ≡ contains 1 lobby.clients
announce_now_result_example = announce_now_result 1 lobby

-- Another address was banned until time 3, the client's until time 9.
abbrev strict_lobby : Server
strict_lobby = record lobby {
  banned = record { ip = b'8' ∷ []; until = 3 } ∷ record { ip = b'9' ∷ []; until = 9 } ∷ [];
  now = 5;
}

is_banned_client_iff_example :
    ((is_banned_client 1 strict_lobby).0 ≡ banned_at 5 (b'9' ∷ []) strict_lobby.banned)
    × (banned_at 7 (b'9' ∷ []) (is_banned_client 1 strict_lobby).1.banned
        ≡ banned_at 7 (b'9' ∷ []) strict_lobby.banned)
    × ((is_banned_client 1 strict_lobby).1
        ≡ record strict_lobby { banned = (is_banned_client 1 strict_lobby).1.banned })
is_banned_client_iff_example =
    is_banned_client_iff 1 address 7 (b'9' ∷ []) strict_lobby refl (omega arith)

ban_lasts_example :
    (banned_at (strict_lobby.now + 60) address.ip (add_kicked_client 1 strict_lobby).banned ≡ (
      banned_at (strict_lobby.now + 60) address.ip strict_lobby.banned
      || leb 60 (5 * 60 * nanoseconds)))
    × (banned_at (strict_lobby.now + 60) address.ip (add_banned_client 1 strict_lobby).banned ≡ (
        banned_at (strict_lobby.now + 60) address.ip strict_lobby.banned
        || leb 60 (24 * 60 * 60 * nanoseconds)))
ban_lasts_example = ban_lasts 1 address 60 strict_lobby refl

clients_answer_shape_example :
    let v = (lobby.client_at 1).protocol_version in
    let shown = shown_clients lobby.client_at 1 (active_clients lobby.client_at lobby.clients) in
    (length (clients_answer lobby 1) ≡ 2 + length shown * n_fields v)
    × (encodable (clients_answer lobby 1) ≡ (not (eq_ℤ v (pos 4)) || is_nil shown))
clients_answer_shape_example = clients_answer_shape lobby 1
