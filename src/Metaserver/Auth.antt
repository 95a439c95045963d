-- ===== src/Metaserver/Auth.antt =====
-- wlms/client.go: LOGIN, CHECK_PWD, PWD_CHALLENGE and RELOGIN: the handlers that let a client in.
pub mod Cases
pub mod Relogin
pub mod Renamed
pub mod Names
pub mod Challenge
pub mod Games
use widelands_metaserver.Base.{
  ℕ, ◌/◌, Bool, true, false, not, ◌&&◌, ◌||◌, none, some, [], ◌∷◌, if◌then◌else◌, ℤ, lt_ℤ, le_ℤ,
  eq_ℤ, Bytes, str, bytes_eq, pos,
}
use widelands_metaserver.Packet.{text, Packet, ok, err, read_int, read_bool}
use widelands_metaserver.Metaserver.World.{
  State, handshake, check_pwd, connected, is_handshake, is_connected, is_recently_disconnected,
  permissions_string, Server,
}
use widelands_metaserver.Metaserver.Clients.{
  send_packet, set_state, disconnect, add_client, remove_client, has_client,
}
use widelands_metaserver.Metaserver.Banned.{is_banned_client}
use widelands_metaserver.Metaserver.Handler.{
  critical_cmd_packet_error, Reply, done, fail_critical, build20, build21, is_supported_version,
  modify_client, error_packet, with_string,
}
use widelands_metaserver.Metaserver.Login.{name_of, find_replace_candidates, wait_for_client}

-- Client.sendChallenge
unfoldable pub send_challenge : ℕ → Server → Server
send_challenge p s = elim (s.user_db.challenge_response_pair_from_username s.random (name_of p s)) [
  | none ↦ disconnect p (modify_client p (λ c. record c { expected_response = [] }) s)
  | some (challenge, response) ↦
      send_packet p (text (str "PWD_CHALLENGE") ∷ text challenge ∷ [])
        (modify_client p (λ c. record c { expected_response = response }) s)
]

-- Client.checkCredentialsLegacy, then the rest of Handle_LOGIN.
unfoldable pub login_legacy : ℕ → Server → Reply
login_legacy p s =
    let c = s.client_at p in
    let allowed = s.user_db.permissions c.user_name in
    if s.user_db.password_correct c.user_name c.nonce
    then done (
        find_replace_candidates p true
          (modify_client p (λ c'. record c' { permissions = allowed }) s))
    else fail_critical (str "WRONG_PASSWORD") s

-- Handle_LOGIN after the ban was checked.
unfoldable pub login_checked : ℕ → Bool → Server → Reply
login_checked p is_registered_on_server s =
    let c = s.client_at p in
    if not is_registered_on_server
    then done (find_replace_candidates p false s)
    else if not (s.user_db.contains_name c.user_name)
    then fail_critical (str "WRONG_PASSWORD") s
    else if le_ℤ build20 c.protocol_version
    then done (send_challenge p s)
    else login_legacy p s

-- The answer to a client from a banned address.
unfoldable pub refuse_banned : ℤ → Server → Reply
refuse_banned v s =
    if lt_ℤ v build21
    then fail_critical (str "WRONG_PASSWORD") s
    else fail_critical (str "BANNED") s

-- Handle_LOGIN after the packet was read.
unfoldable pub login_read : ℕ → Bool → Server → Reply
login_read p is_registered_on_server s₀ =
    let (banned, s) = is_banned_client p s₀ in
    if banned
    then refuse_banned (s.client_at p).protocol_version s
    else login_checked p is_registered_on_server s

-- Handle_LOGIN after `Unpack`.
unfoldable pub login_unpacked : ℕ → Bool → Packet → Server → Reply
login_unpacked p is_registered_on_server pkg s =
    let v = (s.client_at p).protocol_version in
    if not (is_supported_version v)
    then fail_critical (str "UNSUPPORTED_PROTOCOL") s
    else if is_registered_on_server || le_ℤ build20 v
    then (with_string critical_cmd_packet_error pkg s λ n _.
        login_read p is_registered_on_server (modify_client p (λ c. record c { nonce = n }) s))
    else login_read p is_registered_on_server s

-- `Unpack(&c.protocolVersion, &c.userName, &c.buildId)` and what comes after it. `Unpack` stores what a
-- read gives also when it fails, which is 0 or the empty string, and leaves the fields after it.
unfoldable pub with_identity : ℕ → Packet → Server → (Packet → Server → Reply) → Reply
with_identity p pkg₀ s₀ k = elim (read_int pkg₀) [
  | err m ↦ fail_critical m (modify_client p (λ c. record c { protocol_version = pos 0 }) s₀)
  | ok (v, pkg₁) ↦
      let s₁ = modify_client p (λ c. record c { protocol_version = v }) s₀ in
      let no_name = modify_client p (λ c. record c { user_name = [] }) s₁ in
      with_string critical_cmd_packet_error pkg₁ no_name λ n pkg₂.
        let s₂ = modify_client p (λ c. record c { user_name = n }) s₁ in
        let no_build = modify_client p (λ c. record c { build_id = [] }) s₂ in
        with_string critical_cmd_packet_error pkg₂ no_build
          λ b pkg₃. k pkg₃ (modify_client p (λ c. record c { build_id = b }) s₂)
]

-- Client.Handle_LOGIN
unfoldable pub handle_login : ℕ → Packet → Server → Reply
handle_login p pkg s =
    if is_connected (s.client_at p).state
    then fail_critical (str "ALREADY_LOGGED_IN") s
    else with_identity p pkg s λ pkg' s'. elim (read_bool pkg') [
      | err m ↦ fail_critical m s'
      | ok (is_registered_on_server, rest) ↦ login_unpacked p is_registered_on_server rest s'
    ]

-- Client.Handle_CHECK_PWD
unfoldable pub handle_check_pwd : ℕ → Packet → Server → Reply
handle_check_pwd p pkg s =
    if is_connected (s.client_at p).state
    then fail_critical (str "ALREADY_LOGGED_IN") s
    else with_identity p pkg s λ _ s'.
      if lt_ℤ (s'.client_at p).protocol_version build21
      then fail_critical (str "UNSUPPORTED_PROTOCOL") s'
      else if not (s'.user_db.contains_name (name_of p s'))
      then fail_critical (str "WRONG_PASSWORD") s'
      else done (modify_client p (λ c. record c { state = check_pwd }) (send_challenge p s'))

-- Handle_PWD_CHALLENGE after the response was found right, by the state.
unfoldable pub password_fine : State → ℕ → Server → Server
password_fine handshake p s =
    let n = name_of p s in
    find_replace_candidates p true (
      modify_client p
        (λ c. record c {
          permissions = s.user_db.permissions n;
          nonce = s.user_db.downgraded_user_nonce n n;
        })
        s)
password_fine check_pwd p s =
    let n = name_of p s in
    send_packet p
      (text (str "PWD_OK") ∷ text n ∷ text (permissions_string (s.user_db.permissions n)) ∷ [])
      (modify_client p (λ c. record c { state = handshake }) s)
password_fine _ p s =
    disconnect p
      (send_packet p (error_packet (str "PWD_CHALLENGE") (str "Invalid connection state")) s)

-- Client.Handle_PWD_CHALLENGE
unfoldable pub handle_pwd_challenge : ℕ → Packet → Server → Reply
handle_pwd_challenge p pkg s = with_string critical_cmd_packet_error pkg s λ response _.
    if bytes_eq (s.client_at p).expected_response response
    then done (password_fine (s.client_at p).state p s)
    else fail_critical (str "WRONG_PASSWORD") s

-- Client.successfulRelogin
unfoldable pub successful_relogin : ℕ → ℕ → Server → Server
successful_relogin p old s =
    set_state p connected
      (add_client p (send_packet p (text (str "RELOGIN") ∷ []) (remove_client old s)))

-- Handle_RELOGIN for the client that is found under the name.
unfoldable pub relogin_found : ℕ → ℕ → ℤ → Bytes → Bytes → Server → Reply
relogin_found p old v build n s =
    let o = s.client_at old in
    let s' =
      modify_client p
        (λ c. record c {
          time_last_message = s.now;
          protocol_version = o.protocol_version;
          permissions = o.permissions;
          user_name = o.user_name;
          build_id = o.build_id;
          game = o.game;
          nonce = o.nonce;
        })
        s in
    if not (eq_ℤ v o.protocol_version && (bytes_eq build o.build_id && bytes_eq n o.nonce))
    then fail_critical (str "WRONG_INFORMATION") s
    else if is_recently_disconnected (s'.client_at old).state
    then done (successful_relogin p old s')
    else done (
        wait_for_client p old (s'.ping_cycle_time / 3)
          (modify_client p (λ c. record c { state = handshake }) s'))

-- Handle_RELOGIN after the packet was read.
unfoldable pub relogin_read : ℕ → ℤ → Bytes → Bytes → Bytes → Server → Reply
relogin_read p v name build n s₀ =
    let (banned, s) = is_banned_client p s₀ in
    if banned then refuse_banned (s.client_at p).protocol_version s else elim (has_client name s) [
      | none ↦ fail_critical (str "NOT_LOGGED_IN") s
      | some old ↦ relogin_found p old v build n s
    ]

-- Client.Handle_RELOGIN
unfoldable pub handle_relogin : ℕ → Packet → Server → Reply
handle_relogin p pkg₀ s =
    if not (is_handshake (s.client_at p).state)
    then fail_critical (str "ALREADY_LOGGED_IN") s
    else elim (read_int pkg₀) [
      | err m ↦ fail_critical m s
      | ok (v, pkg₁) ↦ with_string critical_cmd_packet_error pkg₁ s λ name pkg₂.
          with_string critical_cmd_packet_error pkg₂ s λ build pkg₃. elim (read_bool pkg₃) [
            | err m ↦ fail_critical m s
            | ok (is_registered_on_server, pkg₄) ↦
                if is_registered_on_server || le_ℤ build20 v
                then (with_string critical_cmd_packet_error pkg₄ s
                    λ n _. relogin_read p v name build n s)
                else relogin_read p v name build [] s
          ]
    ]
