-- ===== src/Tests/Runs.antt =====
-- The relay from its start: a game is created, its host connects, and a signal comes.
use widelands_metaserver.Base.{
  ℕ, Option, none, sym, ap, subst, ◌∙◌, ◌==◌, ◌*◌, false, some, arith, [], ◌∷◌, ◌++◌, List, true,
  refl, ◌≡◌, str, bytes_eq, length, Bytes,
}
use widelands_metaserver.Relay.State.{
  nanoseconds, ping_turn, disconnect_code, to_host, disconnect, read_packet, crash, hello, Server,
  put_game, put_client, read_uint8, read_string, consume, send_command,
}
use widelands_metaserver.Relay.Games.{
  remove_game, remove_game_if_no_host_is_connected, find_hostless, add_player, contains,
  disconnect_client, shutdown, shutdown_loop, disconnect_in_shutdown, drop_client, tell_host,
  disconnect_host, remove_first, remove_game_object, create_game, find_game, new_game, add_client,
  add_host, send_welcome,
}
use widelands_metaserver.Relay.Messages.{
  get_client, host_turn, host_command, client_turn, client_command, forward_to_host,
  deal_with_new_connection, read_version, read_names, join_game,
}
use widelands_metaserver.Relay.Run.{
  shutdown_server, shutdown_games, clock, removes, fires, fire_timer, accept, run_task, task_turn,
  react, new_client, Input, connects, runs, creates, shut_down, step, run, new_server,
}
use widelands_metaserver.Relay.Messages.Ids.{IdsInOrder}
use widelands_metaserver.Relay.Run.Ids.{relay_ids_fine}
use widelands_metaserver.Relay.Run.Fine.{LobbyFine}
use widelands_metaserver.Relay.Run.Games.{relay_games_fine}
use widelands_metaserver.Relay.Run.Signal.{HostsConnected, Ended, relay_shuts_down}
use widelands_metaserver.Tests.Relayed.{member, match}

abbrev greeting : Bytes
greeting = hello ∷ 1 ∷ (str "g" ++ (0 ∷ str "secret" ++ (0 ∷ [])))

-- A second game has the same name, and is refused.
abbrev inputs : List Input
inputs = creates (str "g") (str "secret") ∷ connects greeting ∷ runs 0 ∷ creates (str "g") [] ∷ []

abbrev started : Server
started = run inputs (new_server (member 0 []) match)

hosted : (started.games ≡ 0 ∷ []) × (started.next_game ≡ 1) × (length started.events ≡ 2)
unfolding run step new_server react create_game find_game new_game put_game accept put_client
    run_task task_turn deal_with_new_connection read_uint8 new_client read_version read_names
    read_string join_game bytes_eq str add_client add_host consume send_welcome send_command
hosted = (refl, refl, refl)

relay_games_fine_example : LobbyFine started
relay_games_fine_example = relay_games_fine inputs (member 0 []) match

-- The only listed game has a host who is connected, and no player.
lone_host :
    (g h : ℕ) (s : Server)
    → s.games ≡ g ∷ []
    → (s.game_at g).host ≡ some h
    → (s.game_at g).clients ≡ []
    → (s.client_at h).is_open ≡ true
    → HostsConnected s
unfolding contains
lone_host g h s only host empty up = record {
  up = λ x k l e.
      subst (λ d. (s.client_at d).is_open ≡ true)
        (some_inj h k
          (sym host ∙ subst (λ y. (s.game_at y).host ≡ some k) (lone x (rw only at l)) e))
        up;
  apart = λ x y k l m e.
      subst (λ z. contains k (s.game_at z).clients ≡ false) (sym (lone y (rw only at m)))
        (rw empty refl);
  one = λ x y k l m e ne.
      absurd (differ x y (lone x (rw only at l) ∙ sym (lone y (rw only at m))) ne);
}
  where
    lone : (x : ℕ) → contains x (g ∷ []) ≡ true → x ≡ g
    lone x l = ground arith

    differ : (x y : ℕ) → x ≡ y → (x == y) ≡ false → ⊥
    differ x y e ne = ground arith

    some_inj : (a b : ℕ) → some a ≡ some b → a ≡ b
    some_inj a b e = ap (λ (o : Option ℕ). elim o [ none ↦ a | some x ↦ x ]) e

relay_shuts_down_example : Ended (step shut_down started)
unfolding run step new_server react create_game find_game new_game put_game accept put_client
    run_task task_turn deal_with_new_connection read_uint8 new_client read_version read_names
    read_string join_game bytes_eq str add_client add_host consume send_welcome send_command
relay_shuts_down_example =
    relay_shuts_down inputs (member 0 []) match refl refl refl
      (lone_host 0 0 started refl refl refl refl)

-- Then a player joins.
abbrev player_inputs : List Input
player_inputs = inputs ++ (connects greeting ∷ runs 0 ∷ [])

relay_ids_fine_example :
    let s = run player_inputs (new_server (member 0 []) match) in
    IdsInOrder 0 s × (get_client s.client_at (s.client_at 1).id (s.game_at 0).clients ≡ some 1)
unfolding run step new_server react create_game find_game new_game put_game accept put_client
    run_task task_turn deal_with_new_connection read_uint8 new_client read_version read_names
    read_string join_game bytes_eq str add_client add_host consume send_welcome send_command
    add_player contains
relay_ids_fine_example = relay_ids_fine player_inputs (member 0 []) match 0 1 (omega arith) refl

-- The host leaves, while a packet of the player for the host is still to be read.
abbrev orphan_inputs : List Input
orphan_inputs =
    creates (str "g") (str "secret")
    ∷ connects (greeting ++ (disconnect_code ∷ []))
    ∷ runs 0
    ∷ connects (greeting ++ (to_host ∷ 0 ∷ 3 ∷ 9 ∷ []))
    ∷ runs 0
    ∷ runs 2
    ∷ []

abbrev orphaned : Server
orphaned = run orphan_inputs (new_server (member 0 []) match)

orphan_crashes :
    (orphaned.games ≡ [])
    × (orphaned.crashed ≡ false)
    × ((run (runs 0 ∷ []) orphaned).crashed ≡ true)
unfolding run step new_server react create_game find_game new_game put_game accept put_client
    run_task task_turn deal_with_new_connection read_uint8 new_client read_version read_names
    read_string join_game bytes_eq str add_client add_host consume send_welcome send_command
    add_player contains host_turn host_command disconnect_client shutdown shutdown_loop
    disconnect_in_shutdown drop_client tell_host disconnect disconnect_host remove_first
    remove_game_object client_turn client_command read_packet forward_to_host crash
orphan_crashes = (refl, refl, refl)

-- The timer of a game that is gone takes a new game of its name away, which is one second old.
abbrev reused : Server
reused =
    run
      (creates (str "g") []
        ∷ removes (str "g")
        ∷ clock (29 * nanoseconds)
        ∷ creates (str "g") []
        ∷ clock nanoseconds
        ∷ [])
      (new_server (member 0 []) match)

early_removal : (reused.games ≡ 1 ∷ []) × ((run (fires 1 ∷ []) reused).games ≡ [])
unfolding run step new_server react create_game find_game new_game put_game remove_game shutdown
    shutdown_loop disconnect_host remove_game_object contains remove_first bytes_eq str fire_timer
    remove_game_if_no_host_is_connected find_hostless
early_removal = (refl, refl)

-- The host does not answer the ping, and is disconnected. Before its goroutine notices, a signal comes: two
-- players are listed, and the main loop hangs.
abbrev silent_inputs : List Input
silent_inputs =
    creates (str "g") (str "secret")
    ∷ connects greeting
    ∷ runs 0
    ∷ connects greeting
    ∷ runs 0
    ∷ connects greeting
    ∷ runs 0
    ∷ runs 5
    ∷ runs 0
    ∷ []

abbrev silent : Server
silent = run silent_inputs (new_server (member 0 []) match)

cut_off_host_hangs :
    (silent.hung ≡ false)
    × ((run (shut_down ∷ []) silent).hung ≡ true)
    × ((run (shut_down ∷ []) silent).has_shutdown ≡ false)
unfolding run step new_server react create_game find_game new_game put_game accept put_client
    run_task task_turn deal_with_new_connection read_uint8 new_client read_version read_names
    read_string join_game bytes_eq str add_client add_host consume send_welcome send_command
    add_player contains ping_turn disconnect shutdown_server shutdown_games shutdown shutdown_loop
    disconnect_in_shutdown drop_client tell_host disconnect_host remove_first remove_game_object
cut_off_host_hangs = (refl, refl, refl)
