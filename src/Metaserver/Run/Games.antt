-- ===== src/Metaserver/Run/Games.antt =====
-- wlms/server.go: whatever happens, no two listed games have one name.
use widelands_metaserver.Base.{
  ℕ, Bool, true, false, not, ◌&&◌, ◌||◌, none, some, Bytes, ◌==◌, ltb, length, refl, Option-cases,
  inl, inr, if_cases, if◌then◌else◌, is_some, List, [], ◌∷◌,
}
use widelands_metaserver.Metaserver.World.{
  GameState, initial_setup, not_connectable, connectable, running, is_irc, Client, Game, Server,
  UserDb, Relay, AddressPair, put_game,
}
use widelands_metaserver.Metaserver.Clients.{
  send_packet, disconnect, has_client, has_irc_client, clients_update,
}
use widelands_metaserver.Metaserver.Games.{
  pointer_eq, has_game, ping_succeeded, ping_failed, drop_unconnectable, do_ping, first_ping_reply,
  ping_turn, game_connected, game_closed,
}
use widelands_metaserver.Metaserver.Games.Names.{
  GamesFine, Fine-put_game, Fine-remove_game, Fine-remove_player, Fine-set_game_state,
}
use widelands_metaserver.Metaserver.Games.Steps.{
  send-Fine, broadcast-Fine, disconnect-Fine, remove_client-Fine, put_client-Fine, crash-Fine,
  add_client-Fine, announce_now-Fine,
}
use widelands_metaserver.Metaserver.Dispatch.{client_timeout, allocate, new_client, new_irc_client}
use widelands_metaserver.Metaserver.Dispatch.Games.{
  receive-Fine, stream_ended-Fine, ping_timer-Fine, forget_client-Fine,
}
use widelands_metaserver.Metaserver.Run.{
  irc_message, irc_join, irc_leave, new_connection, shutdown_loop, shutdown, cleanup_games,
  cleanup_clients, cleanup, create_server, Input, connect, packet, timeout, pings, ends, forgets,
  announces, game_ping, irc_says, irc_joins, irc_leaves, relay_connected, relay_closed, shut_down,
  clean_up, clock, randomness, irc_takes, react, step, run,
}

ping_succeeded-Fine :
    (st : GameState) (g : ℕ) (s : Server) → GamesFine s → GamesFine (ping_succeeded st g s)
unfolding ping_succeeded
ping_succeeded-Fine initial_setup g s w = Fine-set_game_state g connectable s w
ping_succeeded-Fine not_connectable g s w = Fine-set_game_state g connectable s w
ping_succeeded-Fine connectable g s w = w
ping_succeeded-Fine running g s w = w

ping_failed-Fine :
    (st : GameState) (g : ℕ) (s : Server) → GamesFine s → GamesFine (ping_failed st g s)
unfolding ping_failed
ping_failed-Fine initial_setup g s w = Fine-set_game_state g not_connectable s w
ping_failed-Fine not_connectable g s w = w
ping_failed-Fine connectable g s w = Fine-set_game_state g not_connectable s w
ping_failed-Fine running g s w = w

drop_unconnectable-Fine : (g : ℕ) (s : Server) → GamesFine s → GamesFine (drop_unconnectable g s)
unfolding drop_unconnectable
drop_unconnectable-Fine g s w =
    let hosted : Bool = elim (has_client (s.game_at g).host s) [
      | none ↦ false
      | some h ↦ pointer_eq (s.client_at h).game (some g)
    ] in
    if_cases GamesFine (not (s.game_at g).uses_relay && not hosted)
      (λ _. Fine-remove_player g (s.game_at g).host s w) (λ _. w)

do_ping-Fine : (g : ℕ) (answer : Bool) (s : Server) → GamesFine s → GamesFine (do_ping g answer s)
unfolding do_ping
do_ping-Fine g true s w = ping_succeeded-Fine _ g s w
do_ping-Fine g false s w = drop_unconnectable-Fine g _ (ping_failed-Fine _ g s w)

-- The turn of a game's pings, once the host is found.
pinged-Fine :
    (g h : ℕ) (first answer : Bool) (s : Server)
    → GamesFine s
    → let s₁ = do_ping g answer s in
      let s₂ = if first then send_packet h (first_ping_reply answer) s₁ else s₁ in
      GamesFine (
        if answer then put_game g (record (s₂.game_at g) { time_last_activity = s.now }) s₂ else s₂)
pinged-Fine g h first answer s w =
    let s₁ = do_ping g answer s in
    let told : GamesFine (if first then send_packet h (first_ping_reply answer) s₁ else s₁) =
      if_cases GamesFine first
        (λ _. send-Fine h (first_ping_reply answer) s₁ (do_ping-Fine g answer s w))
        (λ _. do_ping-Fine g answer s w) in
    if_cases GamesFine answer (λ _. Fine-put_game g _ _ refl told) (λ _. told)

ping_turn-Fine :
    (g : ℕ) (first answer : Bool) (s : Server)
    → GamesFine s
    → GamesFine (ping_turn g first answer s).1
unfolding ping_turn
ping_turn-Fine g first answer s w =
    let game = s.game_at g in
    if_cases (λ (r : Bool × Server). GamesFine r.1)
      (not (pointer_eq (has_game game.name s) (some g)) || length game.players == 0) (λ _. w)
      λ _. elim (Option-cases (has_client game.host s)) [
        | inl e ↦ rw e w
        | inr (h, e) ↦ elim (Option-cases (s.client_at h).conn) [
          | inl f ↦ rw (e, f) (crash-Fine s w)
          | inr (a, f) ↦ rw (e, f) (pinged-Fine g h first answer s w)
        ]
      ]

game_connected-Fine : (n : Bytes) (s : Server) → GamesFine s → GamesFine (game_connected n s)
unfolding game_connected
game_connected-Fine n s w = elim (Option-cases (has_game n s)) [
  | inl e ↦ rw (e, game_connected) w
  | inr (g, e) ↦ rw (e, game_connected) (Fine-set_game_state g connectable s w)
]

game_closed-Fine : (n : Bytes) (s : Server) → GamesFine s → GamesFine (game_closed n s)
unfolding game_closed
game_closed-Fine n s w = elim (Option-cases (has_game n s)) [
  | inl e ↦ rw (e, game_closed) w
  | inr (g, e) ↦ rw (e, game_closed) (Fine-remove_game g s w)
]

allocate-Fine : (c : Client) (s : Server) → GamesFine s → GamesFine (allocate c s)
unfolding allocate
allocate-Fine c s w = put_client-Fine _ c _ (record { distinct = w.distinct; fresh = w.fresh })

irc_join-Fine : (n : Bytes) (s : Server) → GamesFine s → GamesFine (irc_join n s)
unfolding irc_join
irc_join-Fine n s w =
    if_cases GamesFine (is_some (has_irc_client n s)) (λ _. w)
      (λ _.
        broadcast-Fine clients_update _
          (add_client-Fine _ _ (allocate-Fine (new_irc_client n) s w)))

irc_leave-Fine : (n : Bytes) (s : Server) → GamesFine s → GamesFine (irc_leave n s)
unfolding irc_leave
irc_leave-Fine n s w = elim (Option-cases (has_irc_client n s)) [
  | inl e ↦ rw (e, irc_leave) w
  | inr (p, e) ↦ rw (e, irc_leave) (broadcast-Fine clients_update _ (remove_client-Fine p s w))
]

shutdown_loop-Fine : (ps : List ℕ) (s : Server) → GamesFine s → GamesFine (shutdown_loop ps s)
unfolding shutdown_loop
shutdown_loop-Fine [] s w = w
shutdown_loop-Fine (p ∷ ps) s w =
    let w' = disconnect-Fine p s w in
    shutdown_loop-Fine ps _ (record { distinct = w'.distinct; fresh = w'.fresh })

cleanup_games-Fine :
    (b : ℕ) (gs : List ℕ) (s : Server) → GamesFine s → GamesFine (cleanup_games b gs s)
unfolding cleanup_games
cleanup_games-Fine b [] s w = w
cleanup_games-Fine b (g ∷ gs) s w =
    if_cases GamesFine (ltb (s.game_at g).time_last_activity b) (λ _. Fine-remove_game g s w)
      (λ _. cleanup_games-Fine b gs s w)

cleanup_clients-Fine :
    (b : ℕ) (ps : List ℕ) (s : Server) → GamesFine s → GamesFine (cleanup_clients b ps s)
unfolding cleanup_clients
cleanup_clients-Fine b [] s w = w
cleanup_clients-Fine b (p ∷ ps) s w =
    let c = s.client_at p in
    cleanup_clients-Fine b ps _ (
      if_cases GamesFine (not (is_irc c.permissions) && ltb c.time_last_message b)
        {x = disconnect p (send_packet p client_timeout s)} {y = s}
        (λ _. disconnect-Fine p _ (send-Fine p client_timeout s w)) (λ _. w))

react-Fine : (i : Input) (s : Server) → GamesFine s → GamesFine (react i s)
unfolding react new_connection irc_message shutdown cleanup
react-Fine (connect a) s w = allocate-Fine (new_client a s) s w
react-Fine (packet p pkg) s w = receive-Fine p pkg s w
react-Fine (timeout p) s w = disconnect-Fine p _ (send-Fine p client_timeout s w)
react-Fine (pings p) s w = ping_timer-Fine p s w
react-Fine (ends p) s w = stream_ended-Fine p s w
react-Fine (forgets p) s w = forget_client-Fine p s w
react-Fine (announces p) s w = announce_now-Fine p s w
react-Fine (game_ping g first answer) s w = ping_turn-Fine g first answer s w
react-Fine (irc_says nick m) s w = broadcast-Fine _ s w
react-Fine (irc_joins nick) s w = irc_join-Fine nick s w
react-Fine (irc_leaves nick) s w = irc_leave-Fine nick s w
react-Fine (relay_connected n) s w = game_connected-Fine n s w
react-Fine (relay_closed n) s w = game_closed-Fine n s w
react-Fine shut_down s w = shutdown_loop-Fine s.clients s w
react-Fine clean_up s w = cleanup_clients-Fine _ _ _ (cleanup_games-Fine _ s.games s w)
react-Fine (clock d) s w = record { distinct = w.distinct; fresh = w.fresh }
react-Fine (randomness r) s w = record { distinct = w.distinct; fresh = w.fresh }
react-Fine irc_takes s w = record { distinct = w.distinct; fresh = w.fresh }

step-Fine : (i : Input) (s : Server) → GamesFine s → GamesFine (step i s)
unfolding step
step-Fine i s w = go s.crashed
  where
    go : (b : Bool) → GamesFine (elim b [ true ↦ s | false ↦ react i s ])
    go true = w
    go false = react-Fine i s w

run-Fine : (is : List Input) (s : Server) → GamesFine s → GamesFine (run is s)
unfolding run
run-Fine [] s w = w
run-Fine (i ∷ is) s w = run-Fine is (step i s) (step-Fine i s w)

-- From the start of the server, whatever clients send and however it goes on with connections, timers,
-- pings, IRC, the relay and the main loop: the names of the listed games are different, and the next game
-- that is made is not listed yet.
pub games_always_distinct :
    (db : UserDb) (relay : Relay) (a : AddressPair) (blank_client : Client) (blank_game : Game)
    (is : List Input)
    → GamesFine (run is (create_server db relay a blank_client blank_game))
games_always_distinct db relay a blank_client blank_game is =
    run-Fine is _ (unfold create_server in record { distinct = tt; fresh = tt })
