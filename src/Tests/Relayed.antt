-- ===== src/Tests/Relayed.antt =====
-- A game of the relay with a host and two players.
use mathlib.Core.List.{reverse}
use widelands_metaserver.Base.{
  Option, ap, subst, ◌&&◌, ◌||◌, not, ℕ, true, false, none, some, [], ◌∷◌, ◌++◌, map, ◌==◌,
  if◌then◌else◌, ◌≡◌, refl, arith, Bytes,
}
use widelands_metaserver.Relay.State.{
  put_client, Client, Game, Server, sent, from_client, from_host, to_host, to_clients,
}
use widelands_metaserver.Relay.Games.{contains, remove_first, shutdown}
use widelands_metaserver.Relay.Games.Telling.{too_many, shutdown_blocks}
use widelands_metaserver.Relay.Games.Hanging.{shutdown_ends, shutdown_hangs_iff}
use widelands_metaserver.Relay.Messages.{client_turn, host_turn}
use widelands_metaserver.Relay.Messages.Ids.{IdsInOrder}
use widelands_metaserver.Relay.Messages.Sending.{sends_block}
use widelands_metaserver.Relay.Messages.Forward.{frame, client_turn-to_host, host_turn-to_clients}

abbrev pub member : ℕ → Bytes → Client
member id reader = record {
  is_open = true;
  id = id;
  reader = reader;
  ping_timer = 0;
  waiting_for_pong = false;
  last_send_ping_seq = 0;
  time_last_ping = 0;
  time_last_pong = 0;
  rtt_last_ping = 0;
}

abbrev payload : Bytes
payload = 5 ∷ 6 ∷ 7 ∷ []

-- The host, number 0, has sent a packet for the second and the first player, who has sent one to the host.
abbrev members : ℕ → Client
members q =
    if q == 0
    then member 1 (to_clients ∷ 4 ∷ 2 ∷ 0 ∷ (frame payload ++ (9 ∷ [])))
    else if q == 1
    then member 2 (to_host ∷ (frame payload ++ (8 ∷ [])))
    else if q == 2
    then member 4 []
    else member 0 []

abbrev pub match : Game
match = record {
  host = some 0;
  clients = 1 ∷ 2 ∷ [];
  next_client_id = 5;
  protocol_version = 1;
  game_name = b'g' ∷ [];
  host_password = [];
  currently_shutting_down = false;
}

abbrev pub relay : Server
relay = record {
  games = 7 ∷ [];
  client_at = members;
  game_at = λ _. match;
  next_game = 8;
  next_client = 4;
  tasks = [];
  now = 0;
  events = [];
  timers = [];
  writer_ended = λ _. false;
  hung = false;
  crashed = false;
  has_shutdown = false;
}

ids_fine : IdsInOrder 7 relay
ids_fine = ((omega arith, (omega arith, omega arith)), omega arith)

host_no_player :
    (h : ℕ) → (relay.game_at 7).host ≡ some h → contains h (relay.game_at 7).clients ≡ false
unfolding contains
host_no_player h e = subst (λ k. contains k (1 ∷ 2 ∷ []) ≡ false) (host_is e) refl
  where
    host_is : some 0 ≡ some h → 0 ≡ h
    host_is k = ap (λ (o : Option ℕ). elim o [ none ↦ 0 | some x ↦ x ]) k

shutdown_ends_example :
    ((shutdown 7 relay).hung ≡ false)
    × (((shutdown 7 relay).game_at 7).clients ≡ [])
    × (((shutdown 7 relay).game_at 7).host ≡ none)
    × (((shutdown 7 relay).game_at 7).currently_shutting_down ≡ true)
    × ((shutdown 7 relay).games ≡ remove_first 7 relay.games)
unfolding shutdown_blocks too_many
shutdown_ends_example = shutdown_ends 7 relay refl host_no_player refl refl

-- The host is cut off.
abbrev cut_off : Server
cut_off = put_client 0 (record (relay.client_at 0) { is_open = false }) relay

shutdown_hangs_iff_example : (shutdown 7 cut_off).hung ≡ shutdown_blocks 7 cut_off
unfolding put_client
shutdown_hangs_iff_example = shutdown_hangs_iff 7 cut_off refl host_no_player refl

cut_off_blocks : shutdown_blocks 7 cut_off ≡ true
unfolding put_client shutdown_blocks too_many
cut_off_blocks = refl

client_turn-to_host_example :
    let r = client_turn 7 1 relay in
    (r.0 ≡ true)
    × (r.1.events ≡ sent 0 (from_client ∷ 2 ∷ frame payload) ∷ relay.events)
    × ((r.1.client_at 1).reader ≡ 8 ∷ [])
    × (r.1.hung ≡ (relay.hung || (not (relay.client_at 0).is_open && relay.writer_ended 0)))
client_turn-to_host_example =
    client_turn-to_host 7 0 1 payload (8 ∷ []) relay (omega arith) refl refl

host_turn-to_clients_example :
    let r = host_turn 7 relay in
    (r.0 ≡ true)
    × (r.1.events
        ≡ reverse (map (λ d. sent d (from_host ∷ frame payload)) (2 ∷ 1 ∷ [])) ++ relay.events)
    × ((r.1.client_at 0).reader ≡ 9 ∷ [])
    × (r.1.hung ≡ (
        relay.hung
        || sends_block (λ q. (relay.client_at q).is_open) relay.writer_ended (2 ∷ 1 ∷ [])))
unfolding contains
host_turn-to_clients_example =
    host_turn-to_clients 7 0 (2 ∷ 1 ∷ []) payload (9 ∷ []) relay (omega arith) ids_fine refl
      (refl, (refl, tt)) refl
