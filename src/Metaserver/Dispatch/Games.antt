-- ===== src/Metaserver/Dispatch/Games.antt =====
-- wlms/client.go: the loop of a connection keeps the names of the listed games different.
use widelands_metaserver.Base.{
  ℕ, false, none, some, Option, Bytes, bytes_eq, Option-cases, inl, inr, if_cases, is_some, str,
}
use widelands_metaserver.Packet.{Packet, Parsed, ok, err, read_string}
use widelands_metaserver.Metaserver.World.{is_recently_disconnected, Client, Server}
use widelands_metaserver.Metaserver.Clients.{send_packet, disconnect, has_client}
use widelands_metaserver.Metaserver.Handler.{
  CmdError, cmd_packet_error, critical_cmd_packet_error, invalid_packet_error, Reply, modify_client,
  error_packet,
}
use widelands_metaserver.Metaserver.Games.{pointer_eq}
use widelands_metaserver.Metaserver.Games.Names.{GamesFine, set_game-Fine}
use widelands_metaserver.Metaserver.Games.Steps.{
  send-Fine, disconnect-Fine, remove_client-Fine, modify-Fine, restart_ping_loop-Fine,
}
use widelands_metaserver.Metaserver.Login.{name_of, check_candidates}
use widelands_metaserver.Metaserver.Login.Games.{login_done-Fine, check_candidates-Fine}
use widelands_metaserver.Metaserver.Auth.Games.{
  handle_login-Fine, handle_check_pwd-Fine, handle_pwd_challenge-Fine, successful_relogin-Fine,
  handle_relogin-Fine,
}
use widelands_metaserver.Metaserver.Chat.Games.{
  handle_chat-Fine, handle_cmd-Fine, handle_motd-Fine, handle_announcement-Fine,
}
use widelands_metaserver.Metaserver.Lobby.{
  handle_clients, handle_games, handle_pong, handle_game_disconnect,
}
use widelands_metaserver.Metaserver.Lobby.Games.{
  handle_game_open-Fine, handle_game_connect-Fine, handle_game_start-Fine, handle_disconnect-Fine,
}
use widelands_metaserver.Metaserver.Dispatch.{
  client_timeout, run_handler, report, deal_with_pending_login, receive, replace_silent,
  failed_pong, stream_ended, ping_timer, forget_client,
}

abbrev Fine : Reply → Type 0
Fine r = GamesFine r.1

run_handler-Fine :
    (name : Bytes) (p : ℕ) (pkg : Packet) (s : Server)
    → GamesFine s
    → Fine (run_handler name p pkg s)
unfolding run_handler handle_clients handle_games handle_pong handle_game_disconnect
run_handler-Fine name p pkg s w =
    if_cases Fine (bytes_eq name (str "CHAT")) (λ _. handle_chat-Fine p pkg s w)
      λ _.
        if_cases Fine (bytes_eq name (str "CMD")) (λ _. handle_cmd-Fine p pkg s w)
          λ _.
            if_cases Fine (bytes_eq name (str "MOTD")) (λ _. handle_motd-Fine p pkg s w)
              λ _.
                if_cases Fine (bytes_eq name (str "ANNOUNCEMENT"))
                  (λ _. handle_announcement-Fine p pkg s w)
                  λ _.
                    if_cases Fine (bytes_eq name (str "DISCONNECT"))
                      (λ _. handle_disconnect-Fine p pkg s w)
                      λ _.
                        if_cases Fine (bytes_eq name (str "PONG")) (λ _. w)
                          λ _.
                            if_cases Fine (bytes_eq name (str "LOGIN"))
                              (λ _. handle_login-Fine p pkg s w)
                              λ _.
                                if_cases Fine (bytes_eq name (str "CHECK_PWD"))
                                  (λ _. handle_check_pwd-Fine p pkg s w)
                                  λ _.
                                    if_cases Fine (bytes_eq name (str "PWD_CHALLENGE"))
                                      (λ _. handle_pwd_challenge-Fine p pkg s w)
                                      λ _.
                                        if_cases Fine (bytes_eq name (str "RELOGIN"))
                                          (λ _. handle_relogin-Fine p pkg s w)
                                          λ _.
                                            if_cases Fine (bytes_eq name (str "GAME_OPEN"))
                                              (λ _. handle_game_open-Fine p pkg s w)
                                              λ _.
                                                if_cases Fine (bytes_eq name (str "GAME_CONNECT"))
                                                  (λ _. handle_game_connect-Fine p pkg s w)
                                                  λ _.
                                                    if_cases Fine (bytes_eq name (str "GAME_START"))
                                                      (λ _. handle_game_start-Fine p pkg s w)
                                                      λ _.
                                                        if_cases Fine
                                                          (bytes_eq name (str "GAME_DISCONNECT"))
                                                          (λ _. set_game-Fine p none s w)
                                                          λ _.
                                                            if_cases Fine
                                                            (bytes_eq name (str "CLIENTS"))
                                                            (λ _. send-Fine p _ s w)
                                                            λ _.
                                                            if_cases Fine
                                                            (bytes_eq name (str "GAMES"))
                                                            (λ _. send-Fine p _ s w) (λ _. w)

report-Fine :
    (name : Bytes) (p : ℕ) (e : Option CmdError) (s : Server)
    → GamesFine s
    → GamesFine (report name p e s)
unfolding report
report-Fine name p none s w = w
report-Fine name p (some (cmd_packet_error m)) s w = send-Fine p _ s w
report-Fine name p (some (critical_cmd_packet_error m)) s w =
    disconnect-Fine p _ (send-Fine p _ s w)
report-Fine name p (some invalid_packet_error) s w = disconnect-Fine p _ (send-Fine p _ s w)

pending_login-Fine : (p : ℕ) (s : Server) → GamesFine s → GamesFine (deal_with_pending_login p s)
unfolding deal_with_pending_login
pending_login-Fine p s w = elim (Option-cases (s.client_at p).pending_login) [
  | inl e ↦ rw (e, deal_with_pending_login) w
  | inr (q, e) ↦
      let refused =
        disconnect q
          (send_packet q (error_packet (str "RELOGIN") (str "CONNECTION_STILL_ALIVE")) s) in
      rw (e, deal_with_pending_login)
        (modify-Fine p (λ c. record c { pending_login = none }) _
          (if_cases GamesFine (is_some (s.client_at q).replace_candidates)
            {x = check_candidates q s} {y = refused} (λ _. check_candidates-Fine q s w)
            (λ _. disconnect-Fine q _ (send-Fine q _ s w))))
]

-- A packet with the name of a command, or without.
pub receive-Fine : (p : ℕ) (pkg : Packet) (s : Server) → GamesFine s → GamesFine (receive p pkg s)
unfolding receive
receive-Fine p pkg s₀ w₀ =
    let f = λ (c : Client). record c {
      waiting_for_pong = false;
      start_to_ping_timer = some s₀.ping_cycle_time;
      timeout_timer = some s₀.client_sending_timeout;
    } in
    let s = deal_with_pending_login p (modify_client p f s₀) in
    let w : GamesFine s = pending_login-Fine p _ (modify-Fine p f s₀ w₀) in go (read_string pkg) s w
  where
    go :
        (r : Parsed (Bytes × Packet)) (s : Server)
        → GamesFine s
        → GamesFine (elim r [
          | err _ ↦ disconnect p s
          | ok (name, pkg') ↦
              let (e, s') =
                run_handler name p pkg'
                  (modify_client p (λ c. record c { time_last_message = s.now }) s) in
              report name p e s'
        ])
    go (err m) s w = disconnect-Fine p s w
    go (ok (name, pkg')) s w =
        report-Fine name p _ _ (run_handler-Fine name p pkg' _ (modify-Fine p _ s w))

replace_silent-Fine : (p q : ℕ) (s : Server) → GamesFine s → GamesFine (replace_silent p q s)
unfolding replace_silent
replace_silent-Fine p q s w =
    if_cases GamesFine (is_some (s.client_at q).replace_candidates)
      (λ _. login_done-Fine q _ (remove_client-Fine p _ (modify-Fine q _ s w)))
      (λ _. successful_relogin-Fine q p s w)

pub failed_pong-Fine : (p : ℕ) (s : Server) → GamesFine s → GamesFine (failed_pong p s)
unfolding failed_pong
failed_pong-Fine p s w =
    go ((disconnect p (send_packet p client_timeout s)).client_at p).pending_login
  where
    gone : GamesFine (disconnect p (send_packet p client_timeout s))
    gone = disconnect-Fine p _ (send-Fine p client_timeout s w)

    go :
        (o : Option ℕ)
        → GamesFine (elim o [
          | none ↦ disconnect p (send_packet p client_timeout s)
          | some q ↦ replace_silent p q (disconnect p (send_packet p client_timeout s))
        ])
    go none = gone
    go (some q) = replace_silent-Fine p q _ gone

pub stream_ended-Fine : (p : ℕ) (s : Server) → GamesFine s → GamesFine (stream_ended p s)
unfolding stream_ended
stream_ended-Fine p s w =
    if_cases GamesFine (is_recently_disconnected (s.client_at p).state) (λ _. w)
      (λ _. failed_pong-Fine p s w)

pub ping_timer-Fine : (p : ℕ) (s : Server) → GamesFine s → GamesFine (ping_timer p s)
unfolding ping_timer
ping_timer-Fine p s w =
    if_cases GamesFine (s.client_at p).waiting_for_pong (λ _. failed_pong-Fine p s w)
      (λ _. restart_ping_loop-Fine p s.ping_cycle_time s w)

pub forget_client-Fine : (p : ℕ) (s : Server) → GamesFine s → GamesFine (forget_client p s)
unfolding forget_client
forget_client-Fine p s w =
    if_cases GamesFine (pointer_eq (has_client (name_of p s) s) (some p))
      (λ _. remove_client-Fine p _ (set_game-Fine p none s w)) (λ _. w)
