-- ===== src/Metaserver/Games/Steps.antt =====
-- wlms/client.go and server.go: the small steps that keep the names of the listed games different.
use widelands_metaserver.Base.{
  ℕ, true, not, ◌&&◌, some, List, [], ◌∷◌, ◌++◌, ltb, length, Bytes, if_cases, is_some,
}
use widelands_metaserver.Packet.{Field}
use widelands_metaserver.Metaserver.World.{
  State, is_irc, is_connected, Client, Server, put_client, crash, announce,
}
use widelands_metaserver.Metaserver.Clients.{
  send_packet, broadcast_to_connected_clients, set_state, disconnect, add_client, contains,
  remove_client, broadcast_to_irc, broadcast_to_irc_from_user, announce_now, clients_update,
}
use widelands_metaserver.Metaserver.Handler.{modify_client, restart_ping_loop}
use widelands_metaserver.Metaserver.Games.Frame.{
  send_packet-SameGames, broadcast-SameGames, set_state-SameGames, disconnect-SameGames,
  remove_client-SameGames, put_client-SameGames, broadcast_to_irc-SameGames,
}
use widelands_metaserver.Metaserver.Games.Names.{GamesFine, Fine-same}

pub send-Fine : (p : ℕ) (d : List Field) (s : Server) → GamesFine s → GamesFine (send_packet p d s)
send-Fine p d s w = Fine-same (send_packet-SameGames p d s) w

pub broadcast-Fine :
    (d : List Field) (s : Server) → GamesFine s → GamesFine (broadcast_to_connected_clients d s)
broadcast-Fine d s w = Fine-same (broadcast-SameGames d s) w

pub set_state-Fine : (p : ℕ) (st : State) (s : Server) → GamesFine s → GamesFine (set_state p st s)
set_state-Fine p st s w = Fine-same (set_state-SameGames p st s) w

pub disconnect-Fine : (p : ℕ) (s : Server) → GamesFine s → GamesFine (disconnect p s)
disconnect-Fine p s w = Fine-same (disconnect-SameGames p s) w

pub remove_client-Fine : (p : ℕ) (s : Server) → GamesFine s → GamesFine (remove_client p s)
remove_client-Fine p s w = Fine-same (remove_client-SameGames p s) w

pub put_client-Fine : (p : ℕ) (c : Client) (s : Server) → GamesFine s → GamesFine (put_client p c s)
put_client-Fine p c s w = Fine-same (put_client-SameGames p c s) w

pub modify-Fine :
    (p : ℕ) (f : Client → Client) (s : Server) → GamesFine s → GamesFine (modify_client p f s)
unfolding modify_client
modify-Fine p f s w = put_client-Fine p _ s w

pub crash-Fine : (s : Server) → GamesFine s → GamesFine (crash s)
unfolding crash
crash-Fine s w = record { distinct = w.distinct; fresh = w.fresh }

pub add_client-Fine : (p : ℕ) (s : Server) → GamesFine s → GamesFine (add_client p s)
unfolding add_client
add_client-Fine p s w =
    let clients' = s.clients ++ (p ∷ []) in
    if_cases GamesFine (is_irc (s.client_at p).permissions) {x = record s { clients = clients' }}
      {y = record s { clients = clients'; tasks = announce p ∷ s.tasks }}
      (λ _. record { distinct = w.distinct; fresh = w.fresh })
      (λ _. record { distinct = w.distinct; fresh = w.fresh })

pub to_irc-Fine : (m : Bytes) (s : Server) → GamesFine s → GamesFine (broadcast_to_irc m s)
to_irc-Fine m s w = Fine-same (broadcast_to_irc-SameGames m s) w

from_user-Fine :
    (m n : Bytes) (s : Server) → GamesFine s → GamesFine (broadcast_to_irc_from_user m n s)
unfolding broadcast_to_irc_from_user
from_user-Fine m n s w =
    if_cases GamesFine (ltb (length s.messages_to_irc) 5)
      {x = record s {
        messages_to_irc = s.messages_to_irc ++ (record { message = m; nick = n } ∷ []);
      }}
      {y = s} (λ _. record { distinct = w.distinct; fresh = w.fresh }) (λ _. w)

pub announce_now-Fine : (p : ℕ) (s : Server) → GamesFine s → GamesFine (announce_now p s)
unfolding announce_now
announce_now-Fine p s w =
    let c = s.client_at p in
    let listed = contains p s.clients in
    if_cases GamesFine (c.was_announced && not listed)
      (λ _. put_client-Fine p _ _ (broadcast-Fine clients_update _ (from_user-Fine _ _ s w)))
      λ _.
        if_cases GamesFine (not c.was_announced && listed)
          (λ _. put_client-Fine p _ _ (broadcast-Fine clients_update _ (to_irc-Fine _ s w)))
          (λ _. w)

pub restart_ping_loop-Fine :
    (p time : ℕ) (s : Server) → GamesFine s → GamesFine (restart_ping_loop p time s)
unfolding restart_ping_loop
restart_ping_loop-Fine p time s w =
    let pinged =
      if_cases GamesFine (is_connected (s.client_at p).state)
        (λ _. modify-Fine p (λ c. record c { waiting_for_pong = true }) _ (send-Fine p _ s w))
        (λ _. w) in
    if_cases GamesFine (is_some (s.client_at p).start_to_ping_timer)
      (λ _. modify-Fine p (λ c. record c { start_to_ping_timer = some time }) _ pinged)
      (λ _. crash-Fine _ pinged)
