-- ===== src/Relay/Run.antt =====
-- wlnr/server.go: the main loop of the relay and its goroutines, one step for each thing that can happen.
-- A turn of a loop and a call of the metaserver are one step each, and the steps come one after the other.
pub mod Frame
pub mod Counts
pub mod Fine
pub mod Closing
pub mod Laws
pub mod Turns
pub mod Steps
pub mod Games
pub mod Beside
pub mod Signal
pub mod Calm
pub mod Leaving
pub mod Players
pub mod Joining
pub mod Growing
pub mod Ids
use widelands_metaserver.Base.{
  ℕ, zero, suc, ◌+◌, ◌*◌, Bool, true, false, Option, none, some, List, [], ◌∷◌, if◌then◌else◌,
  length, take, Bytes,
}
use widelands_metaserver.Relay.State.{
  Client, Game, Task, new_connection, ping_loop, host_messages, client_messages, Server,
  nanoseconds, end_writer, put_client, disconnect, ping_turn, consume,
}
use widelands_metaserver.Relay.Games.{
  create_game, remove_game, remove_game_if_no_host_is_connected, shutdown,
}
use widelands_metaserver.Relay.Messages.{deal_with_new_connection, client_turn, host_turn}

-- New: the client of a connection, from which the bytes will be read.
unfoldable pub new_client : Bytes → Server → Client
new_client stream s = record {
  is_open = true;
  id = 0;
  reader = stream;
  ping_timer = 1 * nanoseconds;
  waiting_for_pong = false;
  last_send_ping_seq = 0;
  time_last_ping = s.now;
  time_last_pong = s.now;
  rtt_last_ping = 0;
}

-- The main loop on a connection.
unfoldable pub accept : Bytes → Server → Server
accept stream s =
    let c = s.next_client in
    put_client c (new_client stream s)
      (record s { next_client = suc c; tasks = new_connection c ∷ ping_loop c ∷ s.tasks })

-- The main loop on a shutdown, with fuel for the rounds of its loop, which looks at the first game each time.
unfoldable pub shutdown_games : ℕ → Server → Server
shutdown_games zero s = s
shutdown_games (suc f) s = elim s.games [ [] ↦ s | g ∷ _ ↦ shutdown_games f (shutdown g s) ]

-- The loop ends, and the program with it, once there is no game, if no send in it hangs.
unfoldable pub shutdown_server : Server → Server
shutdown_server s =
    let s' = shutdown_games (length s.games) s in
    let ended : Server = elim s'.games [ [] ↦ record s' { has_shutdown = true } | _ ∷ _ ↦ s' ] in
    if s'.hung then s' else ended

-- One turn of a goroutine: whether it goes on, and the state.
unfoldable pub task_turn : Task → Server → Bool × Server
task_turn (new_connection c) s = (false, deal_with_new_connection c s)
task_turn (ping_loop c) s = ping_turn c s
task_turn (host_messages g) s = host_turn g s
task_turn (client_messages g c) s = client_turn g c s

abbrev pub pick {ℓ} : {A : Type ℓ} → ℕ → List A → Option A
pick n [] = none
pick zero (x ∷ xs) = some x
pick (suc n) (x ∷ xs) = pick n xs

abbrev pub without {ℓ} : {A : Type ℓ} → ℕ → List A → List A
without n [] = []
without zero (x ∷ xs) = xs
without (suc n) (x ∷ xs) = x ∷ without n xs

-- The goroutine at a place of the list has its turn.
unfoldable pub run_task : ℕ → Server → Server
run_task n s = elim (pick n s.tasks) [
  | none ↦ s
  | some t ↦
      let (more, s') = task_turn t (record s { tasks = without n s.tasks }) in
      if more then record s' { tasks = t ∷ s'.tasks } else s'
]

-- The timer of a NewGame fires.
unfoldable pub fire_timer : ℕ → Server → Server
fire_timer n s = elim (pick n s.timers) [
  | none ↦ s
  | some name ↦ remove_game_if_no_host_is_connected name (record s { timers = without n s.timers })
]

-- What can happen: a connection, a turn of a goroutine, a timer, a call of the metaserver, a signal; a
-- connection that breaks after some more bytes; the goroutine that writes sees, with the command of
-- Disconnect in its hand, that the connection is gone; the clock.
pub data Input : Type 0 where
  connects : Bytes → Input
  runs fires : ℕ → Input
  creates : Bytes → Bytes → Input
  removes : Bytes → Input
  shut_down : Input
  breaks : ℕ → ℕ → Input
  ends_writer : ℕ → Input
  clock : ℕ → Input

unfoldable pub react : Input → Server → Server
react (connects stream) s = accept stream s
react (runs n) s = run_task n s
react (fires n) s = fire_timer n s
react (creates name password) s = (create_game name password s).1
react (removes name) s = (remove_game name s).1
react shut_down s = shutdown_server s
react (breaks c n) s = consume c (take n (s.client_at c).reader) s
react (ends_writer c) s = if (s.client_at c).is_open then s else end_writer c s
react (clock d) s = record s { now = s.now + d }

-- Nothing happens in a process that has ended. The run stops where a goroutine hangs.
unfoldable pub step : Input → Server → Server
step i s = if s.crashed then s else if s.hung then s else if s.has_shutdown then s else react i s

unfoldable pub run : List Input → Server → Server
run [] s = s
run (i ∷ is) s = run is (step i s)

-- The server of RunServer.
unfoldable pub new_server : Client → Game → Server
new_server blank_client blank_game = record {
  games = [];
  client_at = λ _. blank_client;
  game_at = λ _. blank_game;
  next_game = 0;
  next_client = 0;
  tasks = [];
  now = 0;
  events = [];
  timers = [];
  writer_ended = λ _. false;
  hung = false;
  crashed = false;
  has_shutdown = false;
}
