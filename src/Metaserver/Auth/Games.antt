-- ===== src/Metaserver/Auth/Games.antt =====
-- wlms/client.go: the handlers that let a client in keep the names of the listed games different.
use widelands_metaserver.Base.{
  ℕ, Bool, true, false, not, ◌&&◌, ◌||◌, [], Bytes, bytes_eq, Option-cases, inl, inr, if_cases, ℤ,
  le_ℤ, lt_ℤ, eq_ℤ, pos,
}
use widelands_metaserver.Packet.{Packet, read_int, read_bool}
use widelands_metaserver.Metaserver.World.{
  State, handshake, check_pwd, connected, recently_disconnected, is_connected, is_handshake,
  is_recently_disconnected, Client, Server, crash,
}
use widelands_metaserver.Metaserver.Clients.{has_client}
use widelands_metaserver.Metaserver.Banned.{is_banned_client}
use widelands_metaserver.Metaserver.Handler.{
  Reply, critical_cmd_packet_error, modify_client, is_supported_version, build20, build21,
}
use widelands_metaserver.Metaserver.Games.Names.{GamesFine}
use widelands_metaserver.Metaserver.Games.Steps.{
  send-Fine, set_state-Fine, disconnect-Fine, remove_client-Fine, modify-Fine, add_client-Fine,
}
use widelands_metaserver.Metaserver.Login.{name_of}
use widelands_metaserver.Metaserver.Login.Games.{find_replace_candidates-Fine, wait_for_client-Fine}
use widelands_metaserver.Metaserver.Auth.{
  send_challenge, login_legacy, login_checked, refuse_banned, login_read, login_unpacked,
  with_identity, handle_login, password_fine, handle_pwd_challenge, handle_check_pwd,
  successful_relogin, relogin_found, relogin_read, handle_relogin,
}
use widelands_metaserver.Metaserver.Auth.Cases.{string_cases, parsed_cases}

abbrev Fine : Reply → Type 0
Fine r = GamesFine r.1

send_challenge-Fine : (p : ℕ) (s : Server) → GamesFine s → GamesFine (send_challenge p s)
unfolding send_challenge
send_challenge-Fine p s w =
    elim (Option-cases (s.user_db.challenge_response_pair_from_username s.random (name_of p s))) [
      | inl e ↦ rw (e, send_challenge) (disconnect-Fine p _ (modify-Fine p _ s w))
      | inr ((c, r), e) ↦ rw (e, send_challenge) (send-Fine p _ _ (modify-Fine p _ s w))
    ]

login_legacy-Fine : (p : ℕ) (s : Server) → GamesFine s → Fine (login_legacy p s)
unfolding login_legacy
login_legacy-Fine p s w =
    if_cases Fine (s.user_db.password_correct (name_of p s) (s.client_at p).nonce)
      (λ _. find_replace_candidates-Fine p true _ (modify-Fine p _ s w)) (λ _. w)

login_checked-Fine : (p : ℕ) (r : Bool) (s : Server) → GamesFine s → Fine (login_checked p r s)
unfolding login_checked
login_checked-Fine p r s w =
    if_cases Fine (not r) (λ _. find_replace_candidates-Fine p false s w)
      λ _.
        if_cases Fine (not (s.user_db.contains_name (name_of p s))) (λ _. w)
          λ _.
            if_cases Fine (le_ℤ build20 (s.client_at p).protocol_version)
              (λ _. send_challenge-Fine p s w) (λ _. login_legacy-Fine p s w)

refuse_banned-Fine : (v : ℤ) (s : Server) → GamesFine s → Fine (refuse_banned v s)
unfolding refuse_banned
refuse_banned-Fine v s w = if_cases Fine (lt_ℤ v _) (λ _. w) (λ _. w)

is_banned_client-Fine : (p : ℕ) (s : Server) → GamesFine s → GamesFine (is_banned_client p s).1
unfolding is_banned_client crash
is_banned_client-Fine p s w = elim (Option-cases (s.client_at p).conn) [
  | inl e ↦ rw (e, is_banned_client) (record { distinct = w.distinct; fresh = w.fresh })
  | inr (a, e) ↦ rw (e, is_banned_client) (record { distinct = w.distinct; fresh = w.fresh })
]

login_read-Fine : (p : ℕ) (r : Bool) (s : Server) → GamesFine s → Fine (login_read p r s)
unfolding login_read
login_read-Fine p r s w =
    let t = (is_banned_client p s).1 in
    let w' : GamesFine t = is_banned_client-Fine p s w in
    if_cases Fine (is_banned_client p s).0
      (λ _. refuse_banned-Fine (t.client_at p).protocol_version t w')
      (λ _. login_checked-Fine p r t w')

login_unpacked-Fine :
    (p : ℕ) (r : Bool) (pkg : Packet) (s : Server) → GamesFine s → Fine (login_unpacked p r pkg s)
unfolding login_unpacked
login_unpacked-Fine p r pkg s w =
    let v = (s.client_at p).protocol_version in
    if_cases Fine (not (is_supported_version v)) (λ _. w)
      λ _.
        if_cases Fine (r || le_ℤ build20 v)
          (λ _.
            string_cases Fine critical_cmd_packet_error pkg s _ (λ m. w)
              λ n _. login_read-Fine p r _ (modify-Fine p _ s w))
          (λ _. login_read-Fine p r s w)

with_identity-Fine :
    (p : ℕ) (pkg : Packet) (s : Server) (k : Packet → Server → Reply)
    → GamesFine s
    → ((pkg' : Packet) (t : Server) → GamesFine t → Fine (k pkg' t))
    → Fine (with_identity p pkg s k)
unfolding with_identity
with_identity-Fine p pkg s k w next =
    parsed_cases Fine (read_int pkg) _ _
      (λ m. modify-Fine p (λ c. record c { protocol_version = pos 0 }) s w)
      λ v pkg₁.
        let w₁ = modify-Fine p (λ c. record c { protocol_version = v }) s w in
        string_cases Fine critical_cmd_packet_error pkg₁ _ _
          (λ m. modify-Fine p (λ c. record c { user_name = [] }) _ w₁)
          λ n pkg₂.
            let w₂ = modify-Fine p (λ c. record c { user_name = n }) _ w₁ in
            string_cases Fine critical_cmd_packet_error pkg₂ _ _
              (λ m. modify-Fine p (λ c. record c { build_id = [] }) _ w₂)
              λ b pkg₃. next pkg₃ _ (modify-Fine p (λ c. record c { build_id = b }) _ w₂)

pub handle_login-Fine :
    (p : ℕ) (pkg : Packet) (s : Server) → GamesFine s → Fine (handle_login p pkg s)
unfolding handle_login
handle_login-Fine p pkg s w =
    if_cases Fine (is_connected (s.client_at p).state) (λ _. w)
      λ _. with_identity-Fine p pkg s _ w λ pkg' t w'.
        parsed_cases Fine (read_bool pkg') _ _ (λ m. w') λ r rest. login_unpacked-Fine p r rest t w'

pub handle_check_pwd-Fine :
    (p : ℕ) (pkg : Packet) (s : Server) → GamesFine s → Fine (handle_check_pwd p pkg s)
unfolding handle_check_pwd
handle_check_pwd-Fine p pkg s w =
    if_cases Fine (is_connected (s.client_at p).state) (λ _. w)
      λ _. with_identity-Fine p pkg s _ w λ _ t w'.
        if_cases Fine (lt_ℤ (t.client_at p).protocol_version build21) (λ _. w')
          λ _.
            if_cases Fine (not (t.user_db.contains_name (name_of p t))) (λ _. w')
              (λ _. modify-Fine p _ _ (send_challenge-Fine p t w'))

password_fine-Fine :
    (st : State) (p : ℕ) (s : Server) → GamesFine s → GamesFine (password_fine st p s)
unfolding password_fine
password_fine-Fine handshake p s w = find_replace_candidates-Fine p true _ (modify-Fine p _ s w)
password_fine-Fine check_pwd p s w =
    send-Fine p _ _ (modify-Fine p (λ c. record c { state = handshake }) s w)
password_fine-Fine connected p s w = disconnect-Fine p _ (send-Fine p _ s w)
password_fine-Fine recently_disconnected p s w = disconnect-Fine p _ (send-Fine p _ s w)

pub handle_pwd_challenge-Fine :
    (p : ℕ) (pkg : Packet) (s : Server) → GamesFine s → Fine (handle_pwd_challenge p pkg s)
unfolding handle_pwd_challenge
handle_pwd_challenge-Fine p pkg s w =
    string_cases Fine critical_cmd_packet_error pkg s _ (λ m. w)
      λ r _.
        if_cases Fine (bytes_eq (s.client_at p).expected_response r)
          (λ _. password_fine-Fine (s.client_at p).state p s w) (λ _. w)

pub successful_relogin-Fine :
    (p old : ℕ) (s : Server) → GamesFine s → GamesFine (successful_relogin p old s)
unfolding successful_relogin
successful_relogin-Fine p old s w =
    set_state-Fine p connected _
      (add_client-Fine p _ (send-Fine p _ _ (remove_client-Fine old s w)))

relogin_found-Fine :
    (p old : ℕ) (v : ℤ) (build n : Bytes) (s : Server)
    → GamesFine s
    → Fine (relogin_found p old v build n s)
unfolding relogin_found
relogin_found-Fine p old v build n s w =
    let o = s.client_at old in
    let f = λ (c : Client). record c {
      time_last_message = s.now;
      protocol_version = o.protocol_version;
      permissions = o.permissions;
      user_name = o.user_name;
      build_id = o.build_id;
      game = o.game;
      nonce = o.nonce;
    } in
    let s' = modify_client p f s in
    let w' : GamesFine s' = modify-Fine p f s w in
    if_cases Fine
      (not (eq_ℤ v o.protocol_version && (bytes_eq build o.build_id && bytes_eq n o.nonce)))
      (λ _. w)
      λ _.
        if_cases Fine (is_recently_disconnected (s'.client_at old).state)
          (λ _. successful_relogin-Fine p old s' w')
          (λ _.
            wait_for_client-Fine p old _ _
              (modify-Fine p (λ c. record c { state = handshake }) s' w'))

relogin_read-Fine :
    (p : ℕ) (v : ℤ) (name build n : Bytes) (s : Server)
    → GamesFine s
    → Fine (relogin_read p v name build n s)
unfolding relogin_read
relogin_read-Fine p v name build n s w =
    let t = (is_banned_client p s).1 in
    let w' : GamesFine t = is_banned_client-Fine p s w in
    if_cases Fine (is_banned_client p s).0
      (λ _. refuse_banned-Fine (t.client_at p).protocol_version t w')
      (λ _. elim (Option-cases (has_client name t)) [
        | inl e ↦ rw e w'
        | inr (old, e) ↦ rw e (relogin_found-Fine p old v build n t w')
      ])

pub handle_relogin-Fine :
    (p : ℕ) (pkg : Packet) (s : Server) → GamesFine s → Fine (handle_relogin p pkg s)
unfolding handle_relogin
handle_relogin-Fine p pkg s w =
    if_cases Fine (not (is_handshake (s.client_at p).state)) (λ _. w)
      λ _.
        parsed_cases Fine (read_int pkg) _ _ (λ m. w)
          λ v pkg₁.
            string_cases Fine critical_cmd_packet_error pkg₁ s _ (λ m. w)
              λ name pkg₂.
                string_cases Fine critical_cmd_packet_error pkg₂ s _ (λ m. w)
                  λ build pkg₃.
                    parsed_cases Fine (read_bool pkg₃) _ _ (λ m. w)
                      λ r pkg₄.
                        if_cases Fine (r || le_ℤ build20 v)
                          (λ _.
                            string_cases Fine critical_cmd_packet_error pkg₄ s _ (λ m. w)
                              λ n _. relogin_read-Fine p v name build n s w)
                          (λ _. relogin_read-Fine p v name build [] s w)
