-- ===== src/Relay/Games.antt =====
-- wlnr/game.go and wlnr/server.go: the games of the relay, who joins and leaves them.
pub mod Shutdown
pub mod Telling
pub mod Hanging
pub mod Names
pub mod Removal
use widelands_metaserver.Base.{
  ℕ, zero, suc, ◌+◌, ◌%◌, Bool, true, false, not, ◌&&◌, Option, none, some, List, [], ◌∷◌, ◌++◌,
  leb, ◌==◌, if◌then◌else◌, is_some, length, Bytes, str, bytes_eq,
}
use widelands_metaserver.Relay.State.{
  welcome, connect_client, disconnect_client_code, append_string, Game, game_connected, game_closed,
  host_messages, client_messages, Server, put_client, put_game, send_command, disconnect,
}

unfoldable pub id_host : ℕ
id_host = 1

-- NewGame, with the pointer to the game.
unfoldable pub new_game : Bytes → Bytes → Server → ℕ × Server
unfolding id_host
new_game name password s =
    let g = s.next_game in
    let game : Game = record {
      host = none;
      clients = [];
      next_client_id = id_host + 1;
      protocol_version = 0;
      game_name = name;
      host_password = password;
      currently_shutting_down = false;
    } in
    (g, put_game g game (record s { next_game = suc g; timers = name ∷ s.timers }))

unfoldable pub find_game : (ℕ → Game) → Bytes → List ℕ → Option ℕ
find_game at n [] = none
find_game at n (g ∷ gs) = if bytes_eq (at g).game_name n then some g else find_game at n gs

-- Server.CreateGame
unfoldable pub create_game : Bytes → Bytes → Server → Bool × Server
create_game name password s =
    let (g, s') = new_game name password s in
    if is_some (find_game s.game_at name s.games)
    then (false, s)
    else (true, record s' { games = s'.games ++ (g ∷ []) })

unfoldable pub contains : ℕ → List ℕ → Bool
contains p [] = false
contains p (q ∷ qs) = if q == p then true else contains p qs

unfoldable pub remove_first : ℕ → List ℕ → List ℕ
remove_first p [] = []
remove_first p (q ∷ qs) = if q == p then qs else q ∷ remove_first p qs

-- Server.RemoveGameObject
unfoldable pub remove_game_object : ℕ → Server → Server
remove_game_object g s =
    if contains g s.games
    then record s {
      games = remove_first g s.games;
      events = game_closed (s.game_at g).game_name ∷ s.events;
    }
    else s

abbrev pub is_host : Game → ℕ → Bool
is_host game c = elim game.host [ none ↦ false | some h ↦ h == c ]

-- What the host is told of a client that leaves.
unfoldable pub tell_host : Option ℕ → ℕ → Server → Server
tell_host none id s = s
tell_host (some h) id s = send_command h (disconnect_client_code ∷ id ∷ []) s

-- The end of Game.DisconnectClient: for a client that is not the host.
unfoldable pub drop_client : ℕ → ℕ → Bytes → Server → Server
drop_client g c reason s =
    let game = s.game_at g in
    let s' = disconnect c reason (tell_host game.host (s.client_at c).id s) in
    if contains c game.clients
    then put_game g (record (s'.game_at g) { clients = remove_first c game.clients }) s'
    else s

-- Game.DisconnectClient while the game shuts down: for the host, the call of Shutdown returns at once.
unfoldable pub disconnect_in_shutdown : ℕ → ℕ → Bytes → Server → Server
disconnect_in_shutdown g c reason s =
    let s' = disconnect c reason s in
    if is_host (s.game_at g) c
    then put_game g (record (s'.game_at g) { host = none }) s'
    else drop_client g c reason s

-- The loop of Game.Shutdown, with fuel for its rounds.
unfoldable pub shutdown_loop : ℕ → ℕ → Server → Server
shutdown_loop zero g s = s
shutdown_loop (suc f) g s = elim (s.game_at g).clients [
  | [] ↦ s
  | c ∷ _ ↦ shutdown_loop f g (disconnect_in_shutdown g c (str "NORMAL") s)
]

-- The call of DisconnectClient for the host in Shutdown.
unfoldable pub disconnect_host : ℕ → Option ℕ → Server → Server
disconnect_host g none s = s
disconnect_host g (some h) s = disconnect_in_shutdown g h (str "NORMAL") s

-- Game.Shutdown. A round of the loop takes a client off the list, or the host off the game.
unfoldable pub shutdown : ℕ → Server → Server
shutdown g s =
    let game = s.game_at g in
    let s₁ = put_game g (record game { currently_shutting_down = true }) s in
    let s₂ = shutdown_loop (suc (length game.clients)) g s₁ in
    if game.currently_shutting_down
    then s
    else remove_game_object g (disconnect_host g (s₂.game_at g).host s₂)

-- Game.DisconnectClient
unfoldable pub disconnect_client : ℕ → ℕ → Bytes → Server → Server
disconnect_client g c reason s =
    let s' = disconnect c reason s in
    if is_host (s.game_at g) c
    then shutdown g (put_game g (record (s'.game_at g) { host = none }) s')
    else drop_client g c reason s

-- Server.RemoveGame
unfoldable pub remove_game : Bytes → Server → Bool × Server
remove_game name s = elim (find_game s.game_at name s.games) [
  | none ↦ (false, s)
  | some g ↦ (true, shutdown g s)
]

-- The first game with a name that has no host.
unfoldable pub find_hostless : (ℕ → Game) → Bytes → List ℕ → Option ℕ
find_hostless at n [] = none
find_hostless at n (g ∷ gs) =
    if bytes_eq (at g).game_name n && not (is_some (at g).host)
    then some g
    else find_hostless at n gs

-- Server.RemoveGameIfNoHostIsConnected
unfoldable pub remove_game_if_no_host_is_connected : Bytes → Server → Server
remove_game_if_no_host_is_connected name s = elim (find_hostless s.game_at name s.games) [
  | none ↦ s
  | some g ↦ record s { games = remove_first g s.games; events = game_closed name ∷ s.events }
]

-- The end of Game.addClient: the newcomer is told the version and the name of the game.
unfoldable pub send_welcome : ℕ → ℕ → Server → Server
send_welcome g c s =
    let game = s.game_at g in
    send_command c (append_string (welcome ∷ game.protocol_version ∷ []) game.game_name) s

-- Game.addClient where there is no host yet.
unfoldable pub add_host : ℕ → ℕ → ℕ → Bytes → Server → Server
add_host g c version password s =
    let game = s.game_at g in
    let s₁ = put_game g (record game { protocol_version = version; host = some c }) s in
    let s₂ = put_client c (record (s.client_at c) { id = id_host }) s₁ in
    if bytes_eq password game.host_password
    then send_welcome g c (record s₂ {
      tasks = host_messages g ∷ s₂.tasks;
      events = game_connected game.game_name ∷ s₂.events;
    })
    else disconnect c (str "NO_HOST") s

-- Game.addClient where the host is there.
unfoldable pub add_player : ℕ → ℕ → ℕ → ℕ → Server → Server
add_player g h c version s =
    let game = s.game_at g in
    let id = game.next_client_id in
    let s₁ = put_client c (record (s.client_at c) { id = id }) s in
    let s₂ =
      put_game g
        (record game { next_client_id = (id + 1) % 256; clients = game.clients ++ (c ∷ []) }) s₁ in
    if not (game.protocol_version == version)
    then disconnect c (str "WRONG_VERSION") s
    else if leb 250 id
    then disconnect c (str "NORMAL") s
    else send_welcome g c (
        send_command h (connect_client ∷ id ∷ [])
          (record s₂ { tasks = client_messages g c ∷ s₂.tasks }))

-- Game.addClient
unfoldable pub add_client : ℕ → ℕ → ℕ → Bytes → Server → Server
add_client g c version password s = elim (s.game_at g).host [
  | none ↦ add_host g c version password s
  | some h ↦ add_player g h c version s
]
