-- ===== src/Metaserver/Games.antt =====
-- wlms/game.go, and the games of wlms/server.go: the list, a game's state and players, the pings of
-- a game that a client hosts itself, and what the relay reports.
pub mod Frame
pub mod Names
pub mod Steps
pub mod Pings
use widelands_metaserver.Base.{
  ℕ, suc, Bool, true, false, not, ◌&&◌, ◌||◌, Option, none, some, List, [], ◌∷◌, ◌++◌, ◌==◌,
  if◌then◌else◌, is_some, length, Bytes, str, bytes_eq,
}
use widelands_metaserver.Packet.{Field, text}
use widelands_metaserver.Metaserver.World.{
  GameState, initial_setup, not_connectable, connectable, running, is_connected, is_irc, Client,
  Game, relay_create, relay_remove, ping_cycle, Server, put_client, put_game, crash,
}
use widelands_metaserver.Metaserver.Clients.{
  send_packet, broadcast_to_connected_clients, broadcast_to_irc, clients_update, games_update,
  contains, remove_first, has_client,
}

abbrev pub game_state_eq : GameState → GameState → Bool
game_state_eq initial_setup initial_setup = true
game_state_eq not_connectable not_connectable = true
game_state_eq connectable connectable = true
game_state_eq running running = true
game_state_eq _ _ = false

abbrev pub pointer_eq : Option ℕ → Option ℕ → Bool
pointer_eq none none = true
pointer_eq (some a) (some b) = a == b
pointer_eq none (some b) = false
pointer_eq (some a) none = false

-- Server.AddGame
unfoldable pub add_game : ℕ → Server → Server
add_game g s =
    let game = s.game_at g in
    broadcast_to_irc (str "A new game " ++ (game.name ++ (str " was opened by " ++ game.host)))
      (broadcast_to_connected_clients games_update (record s { games = s.games ++ (g ∷ []) }))

-- Server.RemoveGame. A removed list element has no next one, so the loop ends there.
unfoldable pub remove_game : ℕ → Server → Server
remove_game g s =
    if contains g s.games
    then broadcast_to_connected_clients games_update (record s { games = remove_first g s.games })
    else s

unfoldable pub find_game : (ℕ → Game) → Bytes → List ℕ → Option ℕ
find_game at n [] = none
find_game at n (g ∷ gs) = if bytes_eq (at g).name n then some g else find_game at n gs

-- Server.HasGame
unfoldable pub has_game : Bytes → Server → Option ℕ
has_game n s = find_game s.game_at n s.games

-- Game.SetState
unfoldable pub set_game_state : ℕ → GameState → Server → Server
set_game_state g st s =
    let game = s.game_at g in
    if game_state_eq st game.state
    then s
    else broadcast_to_connected_clients games_update (put_game g (record game { state = st }) s)

-- A write to the map of players.
unfoldable pub put_player : Bytes → Bool → List (Bytes × Bool) → List (Bytes × Bool)
put_player n b [] = (n, b) ∷ []
put_player n b ((m, v) ∷ ps) = if bytes_eq m n then (m, b) ∷ ps else (m, v) ∷ put_player n b ps

unfoldable pub get_player : Bytes → List (Bytes × Bool) → Option Bool
get_player n [] = none
get_player n ((m, v) ∷ ps) = if bytes_eq m n then some v else get_player n ps

-- Game.AddPlayer
unfoldable pub add_player : ℕ → Bytes → Server → Server
add_player g n s =
    let game = s.game_at g in
    put_game g
      (record game { time_last_activity = s.now; players = put_player n true game.players }) s

-- Game.RemovePlayer. A player who leaves stays in the map, with the value false.
unfoldable pub remove_player : ℕ → Bytes → Server → Server
remove_player g n s =
    let game = s.game_at g in
    let touched = record game { time_last_activity = s.now } in
    let s' = put_game g touched s in
    if bytes_eq n game.host
    then (if not game.uses_relay then remove_game g s' else s')
    else if is_some (get_player n game.players)
    then put_game g (record touched { players = put_player n false game.players }) s'
    else s'

-- The part of Client.setGame that leaves the old game.
unfoldable pub leave_game : ℕ → Server → Server
leave_game p s = elim (s.client_at p).game [
  | none ↦ s
  | some g ↦
      let s' = remove_player g (s.client_at p).user_name s in
      put_client p (record (s'.client_at p) { game = none }) s'
]

-- The part that joins the new one.
unfoldable pub join_game : ℕ → Option ℕ → Server → Server
join_game p none s = s
join_game p (some g) s =
    add_player g (s.client_at p).user_name
      (put_client p (record (s.client_at p) { game = some g }) s)

-- Client.setGame
unfoldable pub set_game : ℕ → Option ℕ → Server → Server
set_game p game s =
    if pointer_eq (s.client_at p).game game
    then s
    else broadcast_to_connected_clients clients_update (join_game p game (leave_game p s))

-- NewGame, with the pointer to the game.
unfoldable pub new_game : Bytes → Bytes → Bytes → Bool → Server → ℕ × Server
new_game host build_id name uses_relay s =
    let g = s.next_game in
    let game : Game = record {
      host = host;
      players = [];
      name = name;
      build_id = build_id;
      state = initial_setup;
      uses_relay = uses_relay;
      time_last_activity = s.now;
    } in
    let s' = add_game g (put_game g game (record s { next_game = suc g })) in
    (g, if not uses_relay then record s' { tasks = ping_cycle g ∷ s'.tasks } else s')

-- Game.doPing after a ping that was answered: the switch over the state.
unfoldable pub ping_succeeded : GameState → ℕ → Server → Server
ping_succeeded initial_setup g s = set_game_state g connectable s
ping_succeeded not_connectable g s = set_game_state g connectable s
ping_succeeded connectable g s = s
ping_succeeded running g s = s

-- And after one that was not.
unfoldable pub ping_failed : GameState → ℕ → Server → Server
ping_failed initial_setup g s = set_game_state g not_connectable s
ping_failed not_connectable g s = s
ping_failed connectable g s = set_game_state g not_connectable s
ping_failed running g s = s

-- A self-hosted game whose host is gone, or is in another game, loses its host.
unfoldable pub drop_unconnectable : ℕ → Server → Server
drop_unconnectable g s =
    let game = s.game_at g in
    let hosted : Bool = elim (has_client game.host s) [
      | none ↦ false
      | some h ↦ pointer_eq (s.client_at h).game (some g)
    ] in
    if not game.uses_relay && not hosted then remove_player g game.host s else s

-- Game.doPing, with the answer of the pinger.
unfoldable pub do_ping : ℕ → Bool → Server → Server
do_ping g answer s =
    let st = (s.game_at g).state in
    if answer then ping_succeeded st g s else drop_unconnectable g (ping_failed st g s)

-- What the host of a new game is told after the first ping.
unfoldable pub first_ping_reply : Bool → List Field
first_ping_reply true = text (str "GAME_OPEN") ∷ []
first_ping_reply false =
    text (str "ERROR") ∷ text (str "GAME_OPEN") ∷ text (str "GAME_TIMEOUT") ∷ []

-- One turn of the loop of Game.pingCycle: whether it goes on, and the state.
unfoldable pub ping_turn : ℕ → Bool → Bool → Server → Bool × Server
ping_turn g first answer s =
    let game = s.game_at g in
    if not (pointer_eq (has_game game.name s) (some g)) || length game.players == 0
    then (false, s)
    else elim (has_client game.host s) [
      | none ↦ (false, s)
      | some h ↦ elim (s.client_at h).conn [
        | none ↦ (false, crash s)
        | some _ ↦
            let s₁ = do_ping g answer s in
            let s₂ = if first then send_packet h (first_ping_reply answer) s₁ else s₁ in
            (
              true,
              if answer
                  then put_game g (record (s₂.game_at g) { time_last_activity = s.now }) s₂
                  else s₂,
            )
      ]
    ]

-- Server.RelayCreateGame
unfoldable pub relay_create_game : Bytes → Bytes → Server → Bool × Server
relay_create_game n password s =
    (s.relay.create_game n password, record s { events = relay_create n password ∷ s.events })

-- Server.RelayRemoveGame
unfoldable pub relay_remove_game : Bytes → Server → Server
relay_remove_game n s = record s { events = relay_remove n ∷ s.events }

-- Server.GameConnected
unfoldable pub game_connected : Bytes → Server → Server
game_connected n s = elim (has_game n s) [ none ↦ s | some g ↦ set_game_state g connectable s ]

-- Server.GameClosed
unfoldable pub game_closed : Bytes → Server → Server
game_closed n s = elim (has_game n s) [ none ↦ s | some g ↦ remove_game g s ]
