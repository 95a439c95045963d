-- ===== src/Relay/Run/Ids.antt =====
-- wlnr: the ids of the players of every game, whatever happens.
use widelands_metaserver.Base.{
  ℕ, zero, suc, ◌<◌, Bool, true, none, some, List, [], ◌∷◌, ◌≡◌, refl, subst, All, arith,
  Bool-cases, Option-cases, List-cases, inl, inr, if_cases, first_cases, if◌then◌else◌, length,
  Bytes, bytes_eq,
}
use widelands_metaserver.Relay.State.{
  Client, Game, Task, new_connection, ping_loop, host_messages, client_messages, Server, end_writer,
  consume,
}
use widelands_metaserver.Relay.Games.{contains, find_game, shutdown}
use widelands_metaserver.Relay.Messages.{get_client}
use widelands_metaserver.Relay.Messages.Ids.{IdsInOrder, get_client-id}
use widelands_metaserver.Relay.Run.Calm.{
  Calm, Calm-refl, Calm-trans, Calm-games, Calm-send, Calm-put_client, Calm-disconnect, Calm-crash,
}
use widelands_metaserver.Relay.Run.Leaving.{
  Calm-shutdown, Calm-disconnect_client, Calm-remove_game, Calm-remove_game_if_no_host_is_connected,
}
use widelands_metaserver.Relay.Run.Players.{
  Waits, Others, PlayersFine, Calm-PlayersFine, MayJoin, MayJoin-Calm, All-without, Once-without,
  All-pick, picked-Once,
}
use widelands_metaserver.Relay.Run.Growing.{accept-PlayersFine, create_game-PlayersFine}
use widelands_metaserver.Relay.Run.Joining.{add_client-PlayersFine}
use widelands_metaserver.Relay.Run.Fine.{LobbyFine, Same-Fine}
use widelands_metaserver.Relay.Run.Frame.{Same-tasks}
use widelands_metaserver.Relay.Run.Laws.{Laws}
use widelands_metaserver.Relay.Run.Turns.{ReadyFor, task_turn_keeps}
use widelands_metaserver.Relay.Run.Steps.{lobby_laws}
use widelands_metaserver.Relay.Run.Games.{react-Fine, new_server-Fine}
use widelands_metaserver.Relay.Run.{
  shutdown_games, shutdown_server, task_turn, pick, without, run_task, fire_timer, Input, connects,
  runs, fires, creates, removes, shut_down, breaks, ends_writer, clock, react, step, run,
  new_server,
}

find_game-listed :
    (P : ℕ → Type 0) (at : ℕ → Game) (n : Bytes) (gs : List ℕ) (g : ℕ)
    → find_game at n gs ≡ some g
    → All P gs
    → P g
unfolding find_game
find_game-listed P at n [] g h a = cc
find_game-listed P at n (x ∷ xs) g h a = elim (Bool-cases (bytes_eq (at x).game_name n)) [
  | inl e ↦ subst (λ o. elim o [ none ↦ P x | some z ↦ P z ]) (rw e at h) a.0
  | inr e ↦ find_game-listed P at n xs g (rw e at h) a.1
]

abbrev RelayFine : Server → Type 0
RelayFine s = LobbyFine s × PlayersFine s

Calm-step : (s t : Server) → Calm s t → (LobbyFine s → LobbyFine t) → RelayFine s → RelayFine t
Calm-step s t k f w = (f w.0, Calm-PlayersFine s t k w.1)

consume-Calm : (c : ℕ) (r : Bytes) (s : Server) → Calm s (consume c r s)
unfolding consume
consume-Calm c r s = Calm-put_client c (record (s.client_at c) { reader = r }) s refl

player_laws : Laws RelayFine MayJoin
player_laws = record {
  send = λ c cmd s. Calm-step s _ (Calm-send c cmd s) (lobby_laws.send c cmd s);
  put_client = λ c v s e. Calm-step s _ (Calm-put_client c v s e) (lobby_laws.put_client c v s e);
  disconnect =
      λ c reason s. Calm-step s _ (Calm-disconnect c reason s) (lobby_laws.disconnect c reason s);
  disconnect_client = λ g c reason s.
      Calm-step s _ (Calm-disconnect_client g c reason s)
        (lobby_laws.disconnect_client g c reason s);
  crash = λ s. Calm-step s _ (Calm-crash s) (lobby_laws.crash s);
  add_client = λ g c version name password s e may w. (
    lobby_laws.add_client g c version name password s e tt w.0,
    add_client-PlayersFine g c version password s
        (find_game-listed (λ q. q < s.next_game) s.game_at name s.games g e w.0.fresh) may w.1,
  );
  stays = λ c r s may. MayJoin-Calm c s _ (consume-Calm c r s) may;
}

-- A loop that goes on is put back.
pushed :
    (x : Task) (b : Bool) (s : Server)
    → ((u : Server) → Waits u x)
    → ((ts : List Task) → Others x ts)
    → RelayFine s
    → RelayFine (if b then record s { tasks = x ∷ s.tasks } else s)
pushed x b s waits others w =
    if_cases RelayFine b
      (λ _. (
        Same-Fine s _ (Same-tasks _ s) w.0,
        record {
          ordered = w.1.ordered;
          unborn = w.1.unborn;
          waiting = (waits s, w.1.waiting);
          once = (others s.tasks, w.1.once);
        },
      ))
      (λ _. w)

-- A goroutine that goes on is not one for a new connection.
resumed :
    (x : Task) (s : Server)
    → let r = task_turn x s in
      RelayFine r.1 → RelayFine (if r.0 then record r.1 { tasks = x ∷ r.1.tasks } else r.1)
unfolding task_turn
resumed (new_connection c) s w = w
resumed (ping_loop c) s w = pushed (ping_loop c) _ _ (λ _. tt) (λ _. tt) w
resumed (host_messages g) s w = pushed (host_messages g) _ _ (λ _. tt) (λ _. tt) w
resumed (client_messages g c) s w = pushed (client_messages g c) _ _ (λ _. tt) (λ _. tt) w

ready_picked :
    (n : ℕ) (x : Task) (s : Server)
    → pick n s.tasks ≡ some x
    → PlayersFine s
    → ReadyFor MayJoin x (record s { tasks = without n s.tasks })
ready_picked n (new_connection c) s e w =
    let (young, apart) = All-pick (Waits s) n s.tasks (new_connection c) e w.waiting in
    (young, apart, picked-Once c n s.tasks e w.once)
ready_picked n (ping_loop c) s e w = tt
ready_picked n (host_messages g) s e w = tt
ready_picked n (client_messages g c) s e w = tt

fewer_tasks :
    (n : ℕ) (s : Server) → RelayFine s → RelayFine (record s { tasks = without n s.tasks })
fewer_tasks n s (l, p) = (
  Same-Fine s _ (Same-tasks _ s) l,
  record {
    ordered = p.ordered;
    unborn = p.unborn;
    waiting = All-without (Waits s) n s.tasks p.waiting;
    once = Once-without n s.tasks p.once;
  },
)

run_task-RelayFine : (n : ℕ) (s : Server) → RelayFine s → RelayFine (run_task n s)
unfolding run_task
run_task-RelayFine n s w = elim (Option-cases (pick n s.tasks)) [
  | inl e ↦ rw (run_task, e) w
  | inr (x, e) ↦
      let s₁ = record s { tasks = without n s.tasks } in
      rw (run_task, e)
        (resumed x s₁
          (task_turn_keeps MayJoin player_laws x s₁ (ready_picked n x s e w.1) (fewer_tasks n s w)))
]

fire_timer-Calm : (n : ℕ) (s : Server) → Calm s (fire_timer n s)
unfolding fire_timer
fire_timer-Calm n s = elim (Option-cases (pick n s.timers)) [
  | inl e ↦ rw (fire_timer, e) (Calm-refl s)
  | inr (name, e) ↦
      let s₁ = record s { timers = without n s.timers } in
      rw (fire_timer, e)
        (Calm-trans s s₁ _ (Calm-games s s₁ refl refl refl refl refl)
          (Calm-remove_game_if_no_host_is_connected name s₁))
]

shutdown_games-Calm : (f : ℕ) (s : Server) → Calm s (shutdown_games f s)
unfolding shutdown_games
shutdown_games-Calm zero s = Calm-refl s
shutdown_games-Calm (suc f) s =
    first_cases (Calm s) s.games (Calm-refl s) (λ g.
      Calm-trans s (shutdown g s) _ (Calm-shutdown g s) (shutdown_games-Calm f (shutdown g s)))

shutdown_server-Calm : (s : Server) → Calm s (shutdown_server s)
unfolding shutdown_server
shutdown_server-Calm s =
    let t = shutdown_games (length s.games) s in
    let k = shutdown_games-Calm (length s.games) s in
    if_cases (Calm s) t.hung (λ _. k)
      (λ _. elim (List-cases t.games) [
        | inl e ↦ rw e (Calm-trans s t _ k (Calm-games t _ refl refl refl refl refl))
        | inr (g, gs, e) ↦ rw e k
      ])

react-RelayFine : (i : Input) (s : Server) → RelayFine s → RelayFine (react i s)
unfolding react
react-RelayFine (connects stream) s w =
    (react-Fine (connects stream) s w.0, accept-PlayersFine stream s w.1)
react-RelayFine (runs n) s w = run_task-RelayFine n s w
react-RelayFine (fires n) s w = Calm-step s _ (fire_timer-Calm n s) (react-Fine (fires n) s) w
react-RelayFine (creates name password) s w =
    (react-Fine (creates name password) s w.0, create_game-PlayersFine name password s w.1)
react-RelayFine (removes name) s w =
    Calm-step s _ (Calm-remove_game name s) (react-Fine (removes name) s) w
react-RelayFine shut_down s w = Calm-step s _ (shutdown_server-Calm s) (react-Fine shut_down s) w
react-RelayFine (breaks c n) s w = Calm-step s _ (consume-Calm c _ s) (react-Fine (breaks c n) s) w
react-RelayFine (ends_writer c) s w =
    Calm-step s _
      (if_cases (Calm s) (s.client_at c).is_open (λ _. Calm-refl s)
        (λ _. unfold end_writer in Calm-games s _ refl refl refl refl refl))
      (react-Fine (ends_writer c) s) w
react-RelayFine (clock d) s w =
    Calm-step s _ (Calm-games s _ refl refl refl refl refl) (react-Fine (clock d) s) w

run-RelayFine : (is : List Input) (s : Server) → RelayFine s → RelayFine (run is s)
unfolding run step
run-RelayFine [] s w = w
run-RelayFine (i ∷ is) s w = run-RelayFine is (step i s) (
    if_cases RelayFine s.crashed (λ _. w)
      (λ _.
        if_cases RelayFine s.hung (λ _. w)
          (λ _. if_cases RelayFine s.has_shutdown (λ _. w) (λ _. react-RelayFine i s w))))

new_server-PlayersFine : (c : Client) (g : Game) → PlayersFine (new_server c g)
unfolding new_server
new_server-PlayersFine c g = record {
  ordered = λ q l. absurd (omega (arith, l));
  unborn = λ d l q m. absurd (omega (arith, m));
  waiting = tt;
  once = tt;
}

-- Whatever connections, turns of goroutines, timers, calls of the metaserver, broken connections and
-- signals come, in any order, until a goroutine hangs in a send: in each game that was created the ids of the players go up from 2 on, below
-- the next one, which is at most 250, so that they are different, none is the host's, and the next id, of
-- 8 bits, never wraps around; and the id of a player leads the host to this player and no other.
pub relay_ids_fine :
    (is : List Input) (blank_client : Client) (blank_game : Game) (g p : ℕ)
    → g < (run is (new_server blank_client blank_game)).next_game
    → contains p ((run is (new_server blank_client blank_game)).game_at g).clients ≡ true
    → let s = run is (new_server blank_client blank_game) in
      IdsInOrder g s × (get_client s.client_at (s.client_at p).id (s.game_at g).clients ≡ some p)
relay_ids_fine is c v g p l inside =
    let s = run is (new_server c v) in
    let w = run-RelayFine is (new_server c v) (new_server-Fine c v, new_server-PlayersFine c v) in
    let b = w.1.ordered g l in (b, get_client-id g p s b inside)
