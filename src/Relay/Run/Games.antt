-- ===== src/Relay/Run/Games.antt =====
-- wlnr/server.go: the games of the relay, whatever happens.
use widelands_metaserver.Base.{
  ℕ, zero, suc, ◌≤◌, false, List, [], ◌∷◌, ◌≡◌, refl, ◌∙◌, ap, arith, List-cases, inl, inr,
  if_cases, length, ==_refl,
}
use widelands_metaserver.Relay.State.{Client, Game, Server, end_writer}
use widelands_metaserver.Relay.Run.Counts.{named, created}
use widelands_metaserver.Relay.Games.{remove_first, shutdown}
use widelands_metaserver.Relay.Games.Shutdown.{shutdown_empties}
use widelands_metaserver.Relay.Run.Frame.{closings, Same-consume}
use widelands_metaserver.Relay.Run.Fine.{LobbyFine, Same-Fine}
use widelands_metaserver.Relay.Run.Closing.{shutdown-Fine, remove_game-Fine}
use widelands_metaserver.Relay.Run.{
  shutdown_games, shutdown_server, Input, connects, runs, fires, creates, removes, shut_down,
  breaks, ends_writer, clock, react, step, run, new_server,
}
use widelands_metaserver.Relay.Run.Steps.{
  create_game-Fine, accept-Fine, run_task-Fine, fire_timer-Fine,
}

pub shutdown_games-Fine : (f : ℕ) (s : Server) → LobbyFine s → LobbyFine (shutdown_games f s)
unfolding shutdown_games
shutdown_games-Fine zero s w = w
shutdown_games-Fine (suc f) s w = elim (List-cases s.games) [
  | inl e ↦ rw (shutdown_games, e) w
  | inr (g, gs, e) ↦
      rw (shutdown_games, e) (shutdown_games-Fine f (shutdown g s) (shutdown-Fine g s w))
]

-- A round takes the first game off the list.
pub first_goes :
    (g : ℕ) (gs : List ℕ) (s : Server) → LobbyFine s → s.games ≡ g ∷ gs → (shutdown g s).games ≡ gs
unfolding remove_first
first_goes g gs s w e =
    let open_game : (s.game_at g).currently_shutting_down ≡ false = (rw e at w.running).0 in
    (shutdown_empties g s open_game).3 ∙ rw (e, ==_refl g) refl

pub all_go :
    (f : ℕ) (s : Server) → LobbyFine s → length s.games ≤ f → (shutdown_games f s).games ≡ []
unfolding shutdown_games
all_go zero s w le = elim (List-cases s.games) [
  | inl e ↦ e
  | inr (g, gs, e) ↦ absurd (omega (arith, ap length e))
]
all_go (suc f) s w le = elim (List-cases s.games) [
  | inl e ↦ rw (shutdown_games, e) e
  | inr (g, gs, e) ↦
      let gone = first_goes g gs s w e in
      rw (shutdown_games, e)
        (all_go f (shutdown g s) (shutdown-Fine g s w) (omega (arith, ap length gone, ap length e)))
]

shutdown_server-Fine : (s : Server) → LobbyFine s → LobbyFine (shutdown_server s)
unfolding shutdown_server
shutdown_server-Fine s w =
    let t = shutdown_games (length s.games) s in
    let u = shutdown_games-Fine (length s.games) s w in
    let gone = all_go (length s.games) s w (omega arith) in
    if_cases LobbyFine t.hung (λ _. u)
      (λ _.
        rw gone
          (record { distinct = u.distinct; fresh = u.fresh; running = u.running; told = u.told }))

pub react-Fine : (i : Input) (s : Server) → LobbyFine s → LobbyFine (react i s)
unfolding react
react-Fine (connects stream) s w = accept-Fine stream s w
react-Fine (runs n) s w = run_task-Fine n s w
react-Fine (fires n) s w = fire_timer-Fine n s w
react-Fine (creates name password) s w = create_game-Fine name password s w
react-Fine (removes name) s w = remove_game-Fine name s w
react-Fine shut_down s w = shutdown_server-Fine s w
react-Fine (breaks c n) s w = Same-Fine s _ (Same-consume c _ s) w
react-Fine (ends_writer c) s w =
    if_cases LobbyFine (s.client_at c).is_open (λ _. w)
      (λ _.
        unfold end_writer in
        record { distinct = w.distinct; fresh = w.fresh; running = w.running; told = w.told })
react-Fine (clock d) s w = record {
  distinct = w.distinct;
  fresh = w.fresh;
  running = w.running;
  told = w.told;
}

step-Fine : (i : Input) (s : Server) → LobbyFine s → LobbyFine (step i s)
unfolding step
step-Fine i s w =
    if_cases LobbyFine s.crashed (λ _. w)
      (λ _.
        if_cases LobbyFine s.hung (λ _. w)
          (λ _. if_cases LobbyFine s.has_shutdown (λ _. w) (λ _. react-Fine i s w)))

run-Fine : (is : List Input) (s : Server) → LobbyFine s → LobbyFine (run is s)
unfolding run
run-Fine [] s w = w
run-Fine (i ∷ is) s w = run-Fine is (step i s) (step-Fine i s w)

pub new_server-Fine : (c : Client) (g : Game) → LobbyFine (new_server c g)
unfolding new_server closings named created
new_server-Fine c g = record { distinct = tt; fresh = tt; running = tt; told = λ _. refl }

pub step_on :
    (i : Input) (s : Server)
    → s.crashed ≡ false
    → s.hung ≡ false
    → s.has_shutdown ≡ false
    → step i s ≡ react i s
unfolding step
step_on i s up free on = rw (up, free, on) refl

-- Whatever connections, turns of goroutines, timers, calls of the metaserver, broken connections and
-- signals come, in any order, until a goroutine hangs in a send: the games that the relay lists have
-- different names, none of them is shutting down already, and for each name, the calls of GameClosed with
-- it and the listed games that have it are together as many as the games that were created with it.
pub relay_games_fine :
    (is : List Input) (blank_client : Client) (blank_game : Game)
    → LobbyFine (run is (new_server blank_client blank_game))
relay_games_fine is c g = run-Fine is (new_server c g) (new_server-Fine c g)
