-- ===== src/Metaserver/Lobby/Games.antt =====
-- wlms/client.go: the GAME_ commands and DISCONNECT keep the names of the listed games different.
use widelands_metaserver.Base.{
  ℕ, true, false, none, List, Bytes, bytes_eq, ◌≡◌, refl, Option-cases, inl, inr, if_cases, eq_ℤ,
  is_some, none_of_is_some,
}
use widelands_metaserver.Packet.{Packet, read_int, Field}
use widelands_metaserver.Metaserver.World.{running, Server, crash}
use widelands_metaserver.Metaserver.Clients.{has_client}
use widelands_metaserver.Metaserver.Games.{has_game, relay_create_game}
use widelands_metaserver.Metaserver.Games.Frame.{
  SameGames, SameGames-trans, send_packet-SameGames, disconnect-SameGames, remove_client-SameGames,
}
use widelands_metaserver.Metaserver.Games.Names.{
  GamesFine, Fine-same, Fine-set_game_state, set_game-Fine, new_game-Fine,
}
use widelands_metaserver.Metaserver.Handler.{Reply, build19, cmd_packet_error}
use widelands_metaserver.Metaserver.Auth.Cases.{string_cases, parsed_cases}
use widelands_metaserver.Metaserver.Lobby.{
  handle_disconnect, handle_game_disconnect, handle_game_start, send_addresses, host_challenge,
  relay_game_opened, open_on_relay, open_on_host, open_game, handle_game_open, send_host_ip,
  connect_to_game, handle_game_connect,
}

abbrev Fine : Reply → Type 0
Fine r = GamesFine r.1

send_addresses-SameGames :
    (p : ℕ) (d : List Field) (s : Server) → SameGames s (send_addresses p d s)
unfolding send_addresses crash
send_addresses-SameGames p d s = elim (Option-cases (s.client_at p).conn) [
  | inl e ↦ rw (e, send_addresses) (record { games = refl; game_at = refl; next_game = refl })
  | inr (a, e) ↦ rw (e, send_addresses) (send_packet-SameGames p _ s)
]

send_host_ip-SameGames : (p g : ℕ) (s : Server) → SameGames s (send_host_ip p g s)
unfolding send_host_ip crash
send_host_ip-SameGames p g s = elim (Option-cases (has_client (s.game_at g).host s)) [
  | inl e ↦ rw (e, send_host_ip) (record { games = refl; game_at = refl; next_game = refl })
  | inr (h, e) ↦ elim (Option-cases (s.client_at h).conn) [
    | inl f ↦ rw (e, send_host_ip, f) (record { games = refl; game_at = refl; next_game = refl })
    | inr (a, f) ↦ rw (e, send_host_ip, f) (send_packet-SameGames p _ s)
  ]
]

relay_create_game-Fine :
    (n password : Bytes) (s : Server) → GamesFine s → GamesFine (relay_create_game n password s).1
unfolding relay_create_game
relay_create_game-Fine n password s w = record { distinct = w.distinct; fresh = w.fresh }

open_on_host-Fine :
    (p : ℕ) (name : Bytes) (s : Server)
    → GamesFine s
    → has_game name s ≡ none
    → GamesFine (open_on_host p name s)
unfolding open_on_host
open_on_host-Fine p name s w free = set_game-Fine p _ _ (new_game-Fine _ _ name false s w free)

relay_game_opened-Fine :
    (p : ℕ) (name challenge : Bytes) (s : Server)
    → GamesFine s
    → has_game name s ≡ none
    → GamesFine (relay_game_opened p name challenge s)
unfolding relay_game_opened
relay_game_opened-Fine p name challenge s w free =
    set_game-Fine p _ _
      (Fine-same (send_addresses-SameGames p _ _) (new_game-Fine _ _ name true s w free))

open_on_relay-Fine :
    (p : ℕ) (name : Bytes) (s : Server)
    → GamesFine s
    → has_game name s ≡ none
    → Fine (open_on_relay p name s)
unfolding open_on_relay relay_create_game has_game
open_on_relay-Fine p name s w free = elim (Option-cases (host_challenge p s)) [
  | inl e ↦ rw (e, open_on_relay) (Fine-same (disconnect-SameGames p s) w)
  | inr ((challenge, response), e) ↦
      let t = (relay_create_game name response s).1 in
      let w' : GamesFine t = relay_create_game-Fine name response s w in
      rw (e, open_on_relay)
        (if_cases Fine (s.relay.create_game name response)
          (λ _. relay_game_opened-Fine p name challenge t w' free) (λ _. w'))
]

open_game-Fine : (p : ℕ) (name : Bytes) (s : Server) → GamesFine s → Fine (open_game p name s)
unfolding open_game
open_game-Fine p name s w =
    if_cases Fine (is_some (has_game name s)) (λ _. w)
      λ no.
        let free = none_of_is_some (has_game name s) no in
        if_cases Fine (eq_ℤ (s.client_at p).protocol_version build19)
          (λ _. open_on_host-Fine p name s w free) (λ _. open_on_relay-Fine p name s w free)

pub handle_game_open-Fine :
    (p : ℕ) (pkg : Packet) (s : Server) → GamesFine s → Fine (handle_game_open p pkg s)
unfolding handle_game_open
handle_game_open-Fine p pkg s w =
    string_cases Fine cmd_packet_error pkg s _ (λ m. w)
      λ name pkg'.
        if_cases Fine (eq_ℤ (s.client_at p).protocol_version build19)
          (λ _.
            parsed_cases Fine (read_int pkg') _ _ (λ m. w) (λ v rest. open_game-Fine p name s w))
          (λ _. open_game-Fine p name s w)

connect_to_game-Fine : (p g : ℕ) (s : Server) → GamesFine s → Fine (connect_to_game p g s)
unfolding connect_to_game
connect_to_game-Fine p g s w =
    if_cases Fine (eq_ℤ (s.client_at p).protocol_version build19)
      (λ _.
        if_cases Fine (s.game_at g).uses_relay (λ _. w)
          (λ _. set_game-Fine p _ _ (Fine-same (send_host_ip-SameGames p g s) w)))
      (λ _. set_game-Fine p _ _ (Fine-same (send_addresses-SameGames p _ s) w))

pub handle_game_connect-Fine :
    (p : ℕ) (pkg : Packet) (s : Server) → GamesFine s → Fine (handle_game_connect p pkg s)
unfolding handle_game_connect
handle_game_connect-Fine p pkg s w =
    string_cases Fine cmd_packet_error pkg s _ (λ m. w)
      λ name pkg'. elim (Option-cases (has_game name s)) [
        | inl e ↦ rw e w
        | inr (g, e) ↦ rw e (connect_to_game-Fine p g s w)
      ]

pub handle_game_start-Fine :
    (p : ℕ) (pkg : Packet) (s : Server) → GamesFine s → Fine (handle_game_start p pkg s)
unfolding handle_game_start
handle_game_start-Fine p pkg s w = elim (Option-cases (s.client_at p).game) [
  | inl e ↦ rw (e, handle_game_start) w
  | inr (g, e) ↦
      rw (e, handle_game_start)
        (if_cases Fine (bytes_eq (s.game_at g).host (s.client_at p).user_name)
          (λ _. Fine-set_game_state g running _ (Fine-same (send_packet-SameGames p _ s) w))
          (λ _. w))
]

pub handle_disconnect-Fine :
    (p : ℕ) (pkg : Packet) (s : Server) → GamesFine s → Fine (handle_disconnect p pkg s)
unfolding handle_disconnect
handle_disconnect-Fine p pkg s w =
    string_cases Fine cmd_packet_error pkg s _ (λ m. w)
      λ _ _.
        Fine-same (SameGames-trans (disconnect-SameGames p _) (remove_client-SameGames p _))
          (set_game-Fine p none s w)

-- GAME_OPEN, GAME_CONNECT, GAME_START, GAME_DISCONNECT and DISCONNECT keep the names of the listed
-- games different, whatever the packet holds and however the command ends, if these names are different
-- and the next game that is made is not listed yet.
pub lobby-GamesFine :
    (p : ℕ) (pkg : Packet) (s : Server)
    → GamesFine s
    → GamesFine (handle_game_open p pkg s).1
      × GamesFine (handle_game_connect p pkg s).1
      × GamesFine (handle_game_start p pkg s).1
      × GamesFine (handle_game_disconnect p pkg s).1
      × GamesFine (handle_disconnect p pkg s).1
lobby-GamesFine p pkg s w = (
  handle_game_open-Fine p pkg s w,
  handle_game_connect-Fine p pkg s w,
  handle_game_start-Fine p pkg s w,
  unfold handle_game_disconnect in set_game-Fine p none s w,
  handle_disconnect-Fine p pkg s w,
)
