-- ===== src/Metaserver/Auth/Names.antt =====
-- wlms/client.go: LOGIN, PWD_CHALLENGE, RELOGIN and CHECK_PWD keep the names of the listed clients unique.
use widelands_metaserver.Base.{
  if_cases, ℕ, Bool, true, false, not, ◌||◌, bytes_eq, refl, Option-cases, inl, inr, le_ℤ, lt_ℤ,
  pos, [],
}
use widelands_metaserver.Packet.{Packet, read_int, read_bool}
use widelands_metaserver.Metaserver.World.{
  State, handshake, check_pwd, connected, recently_disconnected, is_connected, Server,
}
use widelands_metaserver.Metaserver.Clients.Frame.{
  Keeps, Keeps-trans, send_packet-Keeps, disconnect-Keeps,
}
use widelands_metaserver.Metaserver.Clients.Names.{NamesUnique, NamesUnique-Keeps}
use widelands_metaserver.Metaserver.Banned.{is_banned_client}
use widelands_metaserver.Metaserver.Handler.{
  critical_cmd_packet_error, Reply, is_supported_version, build20, build21,
}
use widelands_metaserver.Metaserver.Login.{name_of}
use widelands_metaserver.Metaserver.Login.Newcomer.{Newcomer, modify-Newcomer}
use widelands_metaserver.Metaserver.Login.Names.{find_replace_candidates-NamesUnique}
use widelands_metaserver.Metaserver.Login.Waiting.{modify-Keeps}
use widelands_metaserver.Metaserver.Auth.{
  send_challenge, login_legacy, login_checked, login_read, login_unpacked, with_identity,
  handle_login, password_fine, handle_pwd_challenge, handle_check_pwd, handle_relogin,
}
use widelands_metaserver.Metaserver.Auth.Cases.{
  After, string_cases, refuse_banned-NamesUnique, is_banned_client-Newcomer, parsed_cases,
}
use widelands_metaserver.Metaserver.Auth.Relogin.{handle_relogin-NamesUnique}

send_challenge-Keeps : (p : ℕ) (s : Server) → Keeps s (send_challenge p s)
unfolding send_challenge
send_challenge-Keeps p s =
    elim (Option-cases (s.user_db.challenge_response_pair_from_username s.random (name_of p s))) [
      | inl e ↦
          rw (e, send_challenge) (Keeps-trans (modify-Keeps p _ s refl refl) (disconnect-Keeps p _))
      | inr ((c, r), e) ↦
          rw (e, send_challenge)
            (Keeps-trans (modify-Keeps p _ s refl refl) (send_packet-Keeps p _ _))
    ]

login_legacy-NamesUnique : (p : ℕ) (s : Server) → Newcomer p s → After (login_legacy p s)
unfolding login_legacy
login_legacy-NamesUnique p s w =
    if_cases After (s.user_db.password_correct (name_of p s) (s.client_at p).nonce)
      (λ _.
        find_replace_candidates-NamesUnique p true _
          (modify-Newcomer p _ s (w.no_irc_accounts (name_of p s)) w))
      (λ _. w.unique)

login_checked-NamesUnique :
    (p : ℕ) (r : Bool) (s : Server) → Newcomer p s → After (login_checked p r s)
unfolding login_checked
login_checked-NamesUnique p r s w =
    if_cases After (not r) (λ _. find_replace_candidates-NamesUnique p false s w)
      λ _.
        if_cases After (not (s.user_db.contains_name (name_of p s))) (λ _. w.unique)
          λ _.
            if_cases After (le_ℤ build20 (s.client_at p).protocol_version)
              (λ _. NamesUnique-Keeps (send_challenge-Keeps p s) w.unique)
              (λ _. login_legacy-NamesUnique p s w)

login_read-NamesUnique : (p : ℕ) (r : Bool) (s : Server) → Newcomer p s → After (login_read p r s)
unfolding login_read
login_read-NamesUnique p r s w =
    let t = (is_banned_client p s).1 in
    let w' : Newcomer p t = is_banned_client-Newcomer p p s w in
    if_cases After (is_banned_client p s).0
      (λ _. refuse_banned-NamesUnique (t.client_at p).protocol_version t w'.unique)
      (λ _. login_checked-NamesUnique p r t w')

login_unpacked-NamesUnique :
    (p : ℕ) (r : Bool) (pkg : Packet) (s : Server) → Newcomer p s → After (login_unpacked p r pkg s)
unfolding login_unpacked
login_unpacked-NamesUnique p r pkg s w =
    let v = (s.client_at p).protocol_version in
    if_cases After (not (is_supported_version v)) (λ _. w.unique)
      λ _.
        if_cases After (r || le_ℤ build20 v)
          (λ _.
            string_cases After critical_cmd_packet_error pkg s _ (λ m. w.unique)
              λ n _. login_read-NamesUnique p r _ (modify-Newcomer p _ s w.player w))
          (λ _. login_read-NamesUnique p r s w)

with_identity-NamesUnique :
    (p : ℕ) (pkg : Packet) (s : Server) (k : Packet → Server → Reply)
    → Newcomer p s
    → ((pkg' : Packet) (t : Server) → Newcomer p t → After (k pkg' t))
    → After (with_identity p pkg s k)
unfolding with_identity
with_identity-NamesUnique p pkg s k w next =
    parsed_cases After (read_int pkg) _ _
      (λ m. (modify-Newcomer p (λ c. record c { protocol_version = pos 0 }) s w.player w).unique)
      λ v pkg₁.
        let w₁ = modify-Newcomer p (λ c. record c { protocol_version = v }) s w.player w in
        string_cases After critical_cmd_packet_error pkg₁ _ _
          (λ m. (modify-Newcomer p (λ c. record c { user_name = [] }) _ w₁.player w₁).unique)
          λ n pkg₂.
            let w₂ = modify-Newcomer p (λ c. record c { user_name = n }) _ w₁.player w₁ in
            string_cases After critical_cmd_packet_error pkg₂ _ _
              (λ m. (modify-Newcomer p (λ c. record c { build_id = [] }) _ w₂.player w₂).unique)
              λ b pkg₃.
                next pkg₃ _ (modify-Newcomer p (λ c. record c { build_id = b }) _ w₂.player w₂)

handle_login-NamesUnique :
    (p : ℕ) (pkg : Packet) (s : Server) → Newcomer p s → NamesUnique (handle_login p pkg s).1
unfolding handle_login
handle_login-NamesUnique p pkg s w =
    if_cases After (is_connected (s.client_at p).state) (λ _. w.unique)
      λ _. with_identity-NamesUnique p pkg s _ w λ pkg' t w'.
        parsed_cases After (read_bool pkg') _ _ (λ m. w'.unique)
          λ r rest. login_unpacked-NamesUnique p r rest t w'

password_fine-NamesUnique :
    (st : State) (p : ℕ) (s : Server) → Newcomer p s → NamesUnique (password_fine st p s)
unfolding password_fine
password_fine-NamesUnique handshake p s w =
    find_replace_candidates-NamesUnique p true _
      (modify-Newcomer p _ s (w.no_irc_accounts (name_of p s)) w)
password_fine-NamesUnique check_pwd p s w =
    NamesUnique-Keeps (send_packet-Keeps p _ _)
      (modify-Newcomer p (λ c. record c { state = handshake }) s w.player w).unique
password_fine-NamesUnique connected p s w =
    NamesUnique-Keeps (Keeps-trans (send_packet-Keeps p _ s) (disconnect-Keeps p _)) w.unique
password_fine-NamesUnique recently_disconnected p s w =
    NamesUnique-Keeps (Keeps-trans (send_packet-Keeps p _ s) (disconnect-Keeps p _)) w.unique

handle_pwd_challenge-NamesUnique :
    (p : ℕ) (pkg : Packet) (s : Server)
    → Newcomer p s
    → NamesUnique (handle_pwd_challenge p pkg s).1
unfolding handle_pwd_challenge
handle_pwd_challenge-NamesUnique p pkg s w =
    string_cases After critical_cmd_packet_error pkg s _ (λ m. w.unique)
      λ r _.
        if_cases After (bytes_eq (s.client_at p).expected_response r)
          (λ _. password_fine-NamesUnique (s.client_at p).state p s w) (λ _. w.unique)

handle_check_pwd-NamesUnique :
    (p : ℕ) (pkg : Packet) (s : Server) → Newcomer p s → NamesUnique (handle_check_pwd p pkg s).1
unfolding handle_check_pwd
handle_check_pwd-NamesUnique p pkg s w =
    if_cases After (is_connected (s.client_at p).state) (λ _. w.unique)
      λ _. with_identity-NamesUnique p pkg s _ w λ _ t w'.
        if_cases After (lt_ℤ (t.client_at p).protocol_version build21) (λ _. w'.unique)
          λ _.
            if_cases After (not (t.user_db.contains_name (name_of p t))) (λ _. w'.unique)
              (λ _.
                NamesUnique-Keeps
                  (Keeps-trans (send_challenge-Keeps p t) (modify-Keeps p _ _ refl refl)) w'.unique)

-- LOGIN, PWD_CHALLENGE, RELOGIN and CHECK_PWD keep the names of the listed clients unique, among the
-- players and among the IRC users, whatever the packet holds and however the command ends, if it comes
-- from a client that is not listed and is no IRC user, no IRC user is marked as disconnected, and no
-- account of the database has the permissions of IRC users.
pub auth-NamesUnique :
    (p : ℕ) (pkg : Packet) (s : Server)
    → Newcomer p s
    → NamesUnique (handle_login p pkg s).1
      × NamesUnique (handle_pwd_challenge p pkg s).1
      × NamesUnique (handle_relogin p pkg s).1
      × NamesUnique (handle_check_pwd p pkg s).1
auth-NamesUnique p pkg s w = (
  handle_login-NamesUnique p pkg s w,
  handle_pwd_challenge-NamesUnique p pkg s w,
  handle_relogin-NamesUnique p pkg s w,
  handle_check_pwd-NamesUnique p pkg s w,
)
