-- ===== src/Relay/Run/Steps.antt =====
-- wlnr/server.go: the steps of the relay keep the list of games in order.
use widelands_metaserver.Base.{
  suc, ◌+◌, ◌<◌, ℕ, false, List, [], ◌∷◌, ◌++◌, ◌≡◌, refl, arith, Bool-cases, Option-cases, inl,
  inr, if_cases, All, Bytes, ==_refl, ◌==◌,
}
use widelands_metaserver.Relay.State.{
  Task, new_connection, ping_loop, host_messages, client_messages, crash, Server, put_game,
}
use widelands_metaserver.Relay.Games.{new_game, find_game, create_game}
use widelands_metaserver.Relay.Games.Names.{create_game-GamesFine, names, other_games}
use widelands_metaserver.Relay.Run.Counts.{named, created, named-append, named-below, created-below}
use widelands_metaserver.Relay.Run.Frame.{
  closings, Same-tasks, Same-put_client, Same-send, Same-disconnect, Same-add_client,
}
use widelands_metaserver.Relay.Run.Fine.{LobbyFine, Same-Fine}
use widelands_metaserver.Relay.Run.Closing.{
  disconnect_client-Fine, remove_game_if_no_host_is_connected-Fine,
}
use widelands_metaserver.Relay.Run.Turns.{ReadyFor, task_turn_keeps}
use widelands_metaserver.Relay.Run.Laws.{Laws}
use widelands_metaserver.Relay.Run.{
  new_client, accept, task_turn, pick, without, run_task, fire_timer,
}

-- A new game is not shutting down, the others are as they were.
new_running :
    (name password : Bytes) (s : Server) (gs : List ℕ)
    → All (λ q. (s.game_at q).currently_shutting_down ≡ false) gs
    → All
        (λ q. ((new_game name password s).1.game_at q).currently_shutting_down ≡ false)
        (gs ++ (s.next_game ∷ []))
unfolding new_game put_game
new_running name password s [] a = (rw (==_refl s.next_game) refl, tt)
new_running name password s (q ∷ qs) a = elim (Bool-cases (q == s.next_game)) [
  | inl e ↦ (rw e refl, new_running name password s qs a.1)
  | inr e ↦ (rw e a.0, new_running name password s qs a.1)
]

-- The new game is listed and created, and has its name; the names of the others stay.
new_told :
    (n name password : Bytes) (s : Server)
    → LobbyFine s
    → let t = (new_game name password s).1 in
      closings n s.events + named n (names t) (s.games ++ (s.next_game ∷ []))
      ≡ created n (names t) (suc s.next_game)
unfolding created
new_told n name password s w =
    let t = (new_game name password s).1 in
    let k = s.next_game in
    let others : (g : ℕ) → g < k → names t g ≡ names s g = other_games name password s in
    let listed = named-append n (names t) s.games k in
    let old = named-below n (names s) (names t) k s.games w.fresh others in
    let before = created-below n (names s) (names t) k others in
    ground (arith, listed, old, before, w.told n)

pub create_game-Fine :
    (name password : Bytes) (s : Server) → LobbyFine s → LobbyFine (create_game name password s).1
unfolding create_game new_game put_game
create_game-Fine name password s w =
    let r = create_game name password s in
    let games =
      (create_game-GamesFine name password s
        (record { distinct = w.distinct; fresh = w.fresh })).0 in
    elim (Option-cases (find_game s.game_at name s.games)) [
      | inr (g, e) ↦ rw e w
      | inl e ↦ rw e (record {
        distinct = rw e at games.distinct;
        fresh = rw e at games.fresh;
        running = new_running name password s s.games w.running;
        told = λ n. new_told n name password s w;
      })
    ]

pub accept-Fine : (stream : Bytes) (s : Server) → LobbyFine s → LobbyFine (accept stream s)
unfolding accept
accept-Fine stream s w =
    Same-Fine _ _ (Same-put_client s.next_client (new_client stream s) _)
      (record { distinct = w.distinct; fresh = w.fresh; running = w.running; told = w.told })

crash-Fine : (s : Server) → LobbyFine s → LobbyFine (crash s)
unfolding crash
crash-Fine s w = record {
  distinct = w.distinct;
  fresh = w.fresh;
  running = w.running;
  told = w.told;
}

-- What a turn of a goroutine does to the list of games.
pub lobby_laws : Laws LobbyFine (λ _ _. Unit)
lobby_laws = record {
  send = λ c cmd s w. Same-Fine s _ (Same-send c cmd s) w;
  put_client = λ c v s _ w. Same-Fine s _ (Same-put_client c v s) w;
  disconnect = λ c reason s w. Same-Fine s _ (Same-disconnect c reason s) w;
  disconnect_client = disconnect_client-Fine;
  crash = λ s w. crash-Fine s w;
  add_client =
      λ g c version name password s _ _ w. Same-Fine s _ (Same-add_client g c version password s) w;
  stays = λ _ _ _ _. tt;
}

ready : (t : Task) (s : Server) → ReadyFor (λ _ _. Unit) t s
ready (new_connection c) s = tt
ready (ping_loop c) s = tt
ready (host_messages g) s = tt
ready (client_messages g c) s = tt

pub run_task-Fine : (n : ℕ) (s : Server) → LobbyFine s → LobbyFine (run_task n s)
unfolding run_task
run_task-Fine n s w = elim (Option-cases (pick n s.tasks)) [
  | inl e ↦ rw (run_task, e) w
  | inr (t, e) ↦
      let s₁ = record s { tasks = without n s.tasks } in
      let r = task_turn t s₁ in
      let u =
        task_turn_keeps (λ _ _. Unit) lobby_laws t s₁ (ready t s₁)
          (Same-Fine s s₁ (Same-tasks _ s) w) in
      rw (run_task, e) (if_cases LobbyFine r.0 (λ _. Same-Fine r.1 _ (Same-tasks _ r.1) u) (λ _. u))
]

pub fire_timer-Fine : (n : ℕ) (s : Server) → LobbyFine s → LobbyFine (fire_timer n s)
unfolding fire_timer
fire_timer-Fine n s w = elim (Option-cases (pick n s.timers)) [
  | inl e ↦ rw (fire_timer, e) w
  | inr (name, e) ↦
      rw (fire_timer, e)
        (remove_game_if_no_host_is_connected-Fine name (record s { timers = without n s.timers })
          (record { distinct = w.distinct; fresh = w.fresh; running = w.running; told = w.told }))
]
