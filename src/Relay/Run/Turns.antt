-- ===== src/Relay/Run/Turns.antt =====
-- wlnr/game.go, client.go and server.go: what every turn of a goroutine keeps.
use widelands_metaserver.Base.{
  ℕ, Bool, true, false, List, [], ◌∷◌, ◌==◌, refl, Option-cases, inl, inr, if_cases, if◌then◌else◌,
  Bytes, str,
}
use widelands_metaserver.Relay.State.{
  disconnect_code, pong, to_host, to_clients, from_host, round_trip_time_request, Task,
  new_connection, ping_loop, host_messages, client_messages, Server, send_command, ping_turn,
  handle_pong_seq, read_uint8, read_packet, consume,
}
use widelands_metaserver.Relay.Games.{disconnect_client}
use widelands_metaserver.Relay.Messages.{
  protocol_violation, handle_pong, send_rtts, forward_to_host, client_command, client_turn,
  read_destinations, send_to_all, forward_to_clients, host_command, host_turn,
}
use widelands_metaserver.Relay.Run.{task_turn}
use widelands_metaserver.Relay.Run.Laws.{Laws, Read-cases, consume_keeps, new_connection_keeps}

-- What a task needs before its turn.
abbrev pub ReadyFor : (ℕ → Server → Type 0) → Task → Server → Type 0
ReadyFor J (new_connection c) s = J c s
ReadyFor J _ s = Unit

module _ {P : Server → Type 0} (J : ℕ → Server → Type 0) (k : Laws P J) where
  abbrev Fine : Bool × Server → Type 0
  Fine r = P r.1

  ping_turn_keeps : (c : ℕ) (s : Server) → P s → Fine (ping_turn c s)
  unfolding ping_turn
  ping_turn_keeps c s w =
      if_cases Fine (s.client_at c).is_open
        (λ _.
          if_cases Fine (s.client_at c).waiting_for_pong (λ _. k.disconnect c (str "TIMEOUT") s w)
            (λ _. k.send c _ _ (k.put_client c _ s refl w)))
        (λ _. w)

  handle_pong_keeps : (g c : ℕ) (s : Server) → P s → P (handle_pong g c s)
  unfolding handle_pong handle_pong_seq
  handle_pong_keeps g c s w =
      let refused = k.disconnect_client g c protocol_violation s w in
      elim (Read-cases (read_uint8 (s.client_at c).reader)) [
        | inr (inl e) ↦ rw (e, handle_pong) refused
        | inr (inr e) ↦ rw (e, handle_pong) refused
        | inl (seq, r, e) ↦
            let t = consume c r s in
            let u = consume_keeps J k c r s w in
            rw (e, handle_pong)
              (if_cases P (seq == (t.client_at c).last_send_ping_seq)
                (λ _. k.put_client c _ t refl u) (λ _. k.put_client c _ t refl u))
      ]

  send_rtts_keeps : (g c : ℕ) (s : Server) → P s → P (send_rtts g c s)
  unfolding send_rtts
  send_rtts_keeps g c s w = k.send c _ s w

  forward_to_host_keeps : (g c : ℕ) (pkg : Bytes) (s : Server) → P s → P (forward_to_host g c pkg s)
  unfolding forward_to_host
  forward_to_host_keeps g c pkg s w = elim (Option-cases (s.game_at g).host) [
    | inl e ↦ rw (e, forward_to_host) (k.crash s w)
    | inr (h, e) ↦ rw (e, forward_to_host) (k.send h _ s w)
  ]

  send_to_all_keeps : (cs : List ℕ) (cmd : Bytes) (s : Server) → P s → P (send_to_all cs cmd s)
  unfolding send_to_all
  send_to_all_keeps [] cmd s w = w
  send_to_all_keeps (c ∷ cs) cmd s w =
      send_to_all_keeps cs cmd (send_command c cmd s) (k.send c cmd s w)

  -- The end of the two switches, which are the same but for the first case.
  switch_keeps :
      (g c command : ℕ) (s : Server)
      → P s
      → Fine (
          if command == disconnect_code
          then (false, disconnect_client g c (str "NORMAL") s)
          else if command == pong
          then (true, handle_pong g c s)
          else if command == round_trip_time_request
          then (true, send_rtts g c s)
          else (true, s))
  switch_keeps g c command s w =
      if_cases Fine (command == disconnect_code) (λ _. k.disconnect_client g c (str "NORMAL") s w)
        (λ _.
          if_cases Fine (command == pong) (λ _. handle_pong_keeps g c s w)
            (λ _.
              if_cases Fine (command == round_trip_time_request) (λ _. send_rtts_keeps g c s w)
                (λ _. w)))

  client_command_keeps : (g c command : ℕ) (s : Server) → P s → Fine (client_command g c command s)
  unfolding client_command
  client_command_keeps g c command s w =
      let refused = k.disconnect_client g c protocol_violation s w in
      elim (Read-cases (read_packet (s.client_at c).reader)) [
        | inr (inl e) ↦
            rw (client_command, e)
              (if_cases Fine (command == to_host) (λ _. refused)
                (λ _. switch_keeps g c command s w))
        | inr (inr e) ↦
            rw (client_command, e)
              (if_cases Fine (command == to_host) (λ _. refused)
                (λ _. switch_keeps g c command s w))
        | inl (pkg, r, e) ↦
            rw (client_command, e)
              (if_cases Fine (command == to_host)
                (λ _. forward_to_host_keeps g c pkg _ (consume_keeps J k c r s w))
                (λ _. switch_keeps g c command s w))
      ]

  client_turn_keeps : (g c : ℕ) (s : Server) → P s → Fine (client_turn g c s)
  unfolding client_turn
  client_turn_keeps g c s w = elim (Read-cases (read_uint8 (s.client_at c).reader)) [
    | inr (inl e) ↦ rw (client_turn, e) (k.disconnect_client g c (str "NORMAL") s w)
    | inr (inr e) ↦ rw (client_turn, e) (k.disconnect_client g c protocol_violation s w)
    | inl (command, r, e) ↦
        rw (client_turn, e) (client_command_keeps g c command _ (consume_keeps J k c r s w))
  ]

  forward_to_clients_keeps : (g h : ℕ) (s : Server) → P s → Fine (forward_to_clients g h s)
  unfolding forward_to_clients
  forward_to_clients_keeps g h s w =
      let refused = k.disconnect_client g h protocol_violation s w in
      elim (Read-cases
        (read_destinations s.client_at (s.game_at g).clients (s.client_at h).reader)) [
          | inr (inl e) ↦ rw (forward_to_clients, e) refused
          | inr (inr e) ↦ rw (forward_to_clients, e) refused
          | inl (ds, r, e) ↦ elim (Read-cases (read_packet r)) [
            | inr (inl f) ↦ rw (forward_to_clients, e, f) refused
            | inr (inr f) ↦ rw (forward_to_clients, e, f) refused
            | inl (pkg, r', f) ↦
                rw (forward_to_clients, e, f)
                  (send_to_all_keeps ds (from_host ∷ pkg) _ (consume_keeps J k h r' s w))
          ]
        ]

  host_turn_keeps : (g : ℕ) (s : Server) → P s → Fine (host_turn g s)
  unfolding host_turn host_command
  host_turn_keeps g s w = elim (Option-cases (s.game_at g).host) [
    | inl e ↦ rw (host_turn, e) w
    | inr (h, e) ↦ elim (Read-cases (read_uint8 (s.client_at h).reader)) [
      | inr (inl f) ↦ rw (host_turn, e, f) (k.disconnect_client g h (str "NORMAL") s w)
      | inr (inr f) ↦ rw (host_turn, e, f) (k.disconnect_client g h protocol_violation s w)
      | inl (command, r, f) ↦
          let t = consume h r s in
          let u = consume_keeps J k h r s w in
          rw (host_turn, e, f)
            (if_cases Fine (command == to_clients) (λ _. forward_to_clients_keeps g h t u)
              (λ _. switch_keeps g h command t u))
    ]
  ]

  -- A turn of a goroutine.
  pub task_turn_keeps : (t : Task) (s : Server) → ReadyFor J t s → P s → P (task_turn t s).1
  unfolding task_turn
  task_turn_keeps (new_connection c) s j w = new_connection_keeps J k c s j w
  task_turn_keeps (ping_loop c) s j w = ping_turn_keeps c s w
  task_turn_keeps (host_messages g) s j w = host_turn_keeps g s w
  task_turn_keeps (client_messages g c) s j w = client_turn_keeps g c s w
