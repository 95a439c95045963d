-- ===== src/Metaserver/Login.antt =====
-- wlms/client.go: how a login ends: which name the client gets, and whom it replaces.
pub mod Newcomer
pub mod Unconnected
pub mod Waiting
pub mod Done
pub mod Free
pub mod Search
pub mod Games
pub mod Timers
pub mod Names
use widelands_metaserver.Base.{
  ℕ, zero, suc, ◌/◌, Bool, not, ◌&&◌, ◌||◌, Option, none, some, List, [], ◌∷◌, ◌++◌, ◌==◌,
  if◌then◌else◌, is_some, length, pos, le_ℤ, Bytes, str, bytes_eq,
}
use widelands_metaserver.Packet.{Field, int, text, itoa}
use widelands_metaserver.Metaserver.World.{
  unregistered, connected, is_superuser, is_registered, is_unregistered, is_handshake,
  is_recently_disconnected, permissions_string, Client, Server, nanoseconds,
}
use widelands_metaserver.Metaserver.Clients.{
  send_packet, set_state, disconnect, add_client, remove_client, has_client, has_irc_client,
  find_clients_to_replace,
}
use widelands_metaserver.Metaserver.Games.{pointer_eq}
use widelands_metaserver.Metaserver.Handler.{
  build19, build20, modify_client, system_chat, error_packet, restart_ping_loop,
}

abbrev pub name_of : ℕ → Server → Bytes
name_of p s = (s.client_at p).user_name

-- The answer to a login that was finished already.
unfoldable pub refuse_logged_in : ℕ → Server → Server
refuse_logged_in p s =
    disconnect p (send_packet p (error_packet (str "LOGIN") (str "ALREADY_LOGGED_IN")) s)

unfoldable pub send_all : ℕ → List (List Field) → Server → Server
send_all p [] s = s
send_all p (d ∷ ds) s = send_all p ds (send_packet p d s)

-- What loginDone sends before the client is listed.
unfoldable pub welcome : Client → ℕ → List (List Field)
welcome c now =
    let old = le_ℤ c.protocol_version build19 in
    (text (str "LOGIN") ∷ text c.user_name ∷ text (permissions_string c.permissions) ∷ [])
    ∷ ((if old then system_chat (str "Welcome on the Widelands Metaserver!") ∷ [] else [])
        ++ ((text (str "TIME") ∷ int (pos (now / nanoseconds)) ∷ [])
            ∷ (if old
                then system_chat (str "Our forums can be found at:")
                  ∷ (system_chat (str "https://www.widelands.org/forum/")
                      ∷ (system_chat (str "For reporting bugs, visit:")
                          ∷ (system_chat (str "https://www.widelands.org/wiki/ReportingBugs/")
                              ∷ [])))
                else [])))

-- Client.loginDone
unfoldable pub login_done : ℕ → Server → Server
login_done p s =
    let c = s.client_at p in
    let s₁ = set_state p connected (add_client p (send_all p (welcome c s.now) s)) in
    let s₂ = if length s₁.motd == 0 then s₁ else send_packet p (system_chat s₁.motd) s₁ in
    if not (is_handshake c.state)
    then refuse_logged_in p s
    else modify_client p (λ c'. record c' { replace_candidates = none }) s₂

-- Sprintf("%s%d")
unfoldable pub numbered : Bytes → ℕ → Bytes
numbered base i = base ++ itoa (pos i)

-- The client takes a name that is free.
unfoldable pub take_free_name : ℕ → Bytes → Server → Server
take_free_name p base s =
    let c = s.client_at p in
    let downgrade =
      le_ℤ build20 c.protocol_version
      && (is_registered c.permissions || is_superuser c.permissions) in
    let nonce' = if downgrade then s.user_db.downgraded_user_nonce base c.user_name else c.nonce in
    login_done p
      (modify_client p (λ c'. record c' { nonce = nonce'; permissions = unregistered }) s)

-- The loop of findUnconnectedName, with the rounds that are left before it gives up.
unfoldable pub name_loop : ℕ → ℕ → Bytes → ℕ → Server → Server
name_loop zero i base p s = disconnect p s
name_loop (suc rounds) i base p s =
    let name = numbered base (suc i) in
    let s' = modify_client p (λ c. record c { user_name = name }) s in
    let again = name_loop rounds (suc i) base p s' in
    if s.user_db.contains_name name
    then again
    else if is_some (has_client name s')
    then again
    else take_free_name p base s'

-- Client.findUnconnectedName
unfoldable pub find_unconnected_name : ℕ → Server → Server
find_unconnected_name p s = name_loop 1000 0 (name_of p s) p s

-- A client that replaces one with another name loses the permissions it logged in with.
unfoldable pub drop_permissions : ℕ → ℕ → Server → Server
drop_permissions p old s =
    let c = s.client_at p in
    let o = s.client_at old in
    if not (bytes_eq o.user_name c.user_name) && not (is_unregistered c.permissions)
    then modify_client p
        (λ c'. record c' {
          nonce = s.user_db.downgraded_user_nonce c.user_name o.user_name;
          permissions = unregistered;
        })
        s
    else s

-- An old client that is known to be offline is replaced.
unfoldable pub replace_client : ℕ → ℕ → Server → Server
replace_client p old s =
    let o = s.client_at old in
    login_done p (
      remove_client old
        (modify_client p (λ c. record c { user_name = o.user_name; game = o.game }) s))

-- One that may be online is pinged, and the login waits for the answer.
unfoldable pub wait_for_client : ℕ → ℕ → ℕ → Server → Server
wait_for_client p old time s =
    modify_client old (λ o. record o { pending_login = some p }) (restart_ping_loop old time s)

-- Client.checkCandidates, over the candidates that are left.
unfoldable pub check_loop : ℕ → List ℕ → Server → Server
check_loop p [] s =
    if is_handshake (s.client_at p).state then find_unconnected_name p s else refuse_logged_in p s
check_loop p (old ∷ rest) s =
    let s' =
      drop_permissions p old
        (modify_client p (λ c. record c { replace_candidates = some rest }) s) in
    let skip = check_loop p rest s' in
    let o = s'.client_at old in
    if not (is_handshake (s.client_at p).state)
    then refuse_logged_in p s
    else if is_some o.pending_login
    then skip
    else if is_recently_disconnected o.state
    then replace_client p old s'
    else wait_for_client p old (s'.ping_cycle_time / 5) s'

-- The candidates of a client: nil is an empty slice.
abbrev pub candidates : Option (List ℕ) → List ℕ
candidates none = []
candidates (some l) = l

unfoldable pub check_candidates : ℕ → Server → Server
check_candidates p s = check_loop p (candidates (s.client_at p).replace_candidates) s

-- Client.findReplaceCandidates
unfoldable pub find_replace_candidates : ℕ → Bool → Server → Server
find_replace_candidates p is_registered_on_server s₀ =
    let c = s₀.client_at p in
    let found = find_clients_to_replace c.nonce c.user_name s₀ in
    let s = modify_client p (λ c'. record c' { replace_candidates = some found }) s₀ in
    let user = has_client c.user_name s in
    if length found == 0
    then (if not (is_some user)
          && (is_registered_on_server || not (s.user_db.contains_name c.user_name))
        then login_done p s
        else if pointer_eq user (has_irc_client c.user_name s) && is_registered_on_server
        then login_done p s
        else find_unconnected_name p s)
    else check_candidates p s
