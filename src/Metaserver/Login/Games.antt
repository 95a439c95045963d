-- ===== src/Metaserver/Login/Games.antt =====
-- wlms/client.go: a login keeps the names of the listed games different.
use widelands_metaserver.Base.{
  ℕ, zero, suc, ◌/◌, Bool, not, ◌&&◌, ◌||◌, none, some, List, [], ◌∷◌, ◌==◌, length, Bytes,
  bytes_eq, if◌then◌else◌, if_cases, is_some,
}
use widelands_metaserver.Packet.{Field}
use widelands_metaserver.Metaserver.World.{
  connected, is_unregistered, is_handshake, is_recently_disconnected, Client, Server,
}
use widelands_metaserver.Metaserver.Clients.{
  send_packet, set_state, add_client, has_client, has_irc_client, find_clients_to_replace,
}
use widelands_metaserver.Metaserver.Handler.{modify_client, system_chat}
use widelands_metaserver.Metaserver.Games.{pointer_eq}
use widelands_metaserver.Metaserver.Games.Names.{GamesFine}
use widelands_metaserver.Metaserver.Games.Steps.{
  send-Fine, set_state-Fine, disconnect-Fine, remove_client-Fine, modify-Fine, add_client-Fine,
  restart_ping_loop-Fine,
}
use widelands_metaserver.Metaserver.Login.{
  welcome, refuse_logged_in, send_all, login_done, numbered, take_free_name, name_loop,
  find_unconnected_name, drop_permissions, replace_client, wait_for_client, check_loop,
  check_candidates, find_replace_candidates,
}

refuse-Fine : (p : ℕ) (s : Server) → GamesFine s → GamesFine (refuse_logged_in p s)
unfolding refuse_logged_in
refuse-Fine p s w = disconnect-Fine p _ (send-Fine p _ s w)

send_all-Fine :
    (p : ℕ) (ds : List (List Field)) (s : Server) → GamesFine s → GamesFine (send_all p ds s)
unfolding send_all
send_all-Fine p [] s w = w
send_all-Fine p (d ∷ ds) s w = send_all-Fine p ds _ (send-Fine p d s w)

pub login_done-Fine : (p : ℕ) (s : Server) → GamesFine s → GamesFine (login_done p s)
unfolding login_done
login_done-Fine p s w =
    let t = set_state p connected (add_client p (send_all p (welcome (s.client_at p) s.now) s)) in
    let listed : GamesFine t =
      set_state-Fine p connected _
        (add_client-Fine p _ (send_all-Fine p (welcome (s.client_at p) s.now) s w)) in
    let told : GamesFine (if length t.motd == 0 then t else send_packet p (system_chat t.motd) t) =
      if_cases GamesFine (length t.motd == 0) (λ _. listed)
        (λ _. send-Fine p (system_chat t.motd) t listed) in
    if_cases GamesFine (not (is_handshake (s.client_at p).state)) (λ _. refuse-Fine p s w)
      (λ _. modify-Fine p (λ c. record c { replace_candidates = none }) _ told)

take_free_name-Fine :
    (p : ℕ) (base : Bytes) (s : Server) → GamesFine s → GamesFine (take_free_name p base s)
unfolding take_free_name
take_free_name-Fine p base s w = login_done-Fine p _ (modify-Fine p _ s w)

name_loop-Fine :
    (k i : ℕ) (base : Bytes) (p : ℕ) (s : Server) → GamesFine s → GamesFine (name_loop k i base p s)
unfolding name_loop
name_loop-Fine zero i base p s w = disconnect-Fine p s w
name_loop-Fine (suc k) i base p s w =
    let name = numbered base (suc i) in
    let f = λ (c : Client). record c { user_name = name } in
    let w' = modify-Fine p f s w in
    let again = name_loop-Fine k (suc i) base p (modify_client p f s) w' in
    if_cases GamesFine (s.user_db.contains_name name) (λ _. again)
      λ _.
        if_cases GamesFine (is_some (has_client name (modify_client p f s))) (λ _. again)
          (λ _. take_free_name-Fine p base (modify_client p f s) w')

find_unconnected_name-Fine :
    (p : ℕ) (s : Server) → GamesFine s → GamesFine (find_unconnected_name p s)
unfolding find_unconnected_name
find_unconnected_name-Fine p s w = name_loop-Fine 1000 0 _ p s w

drop_permissions-Fine :
    (p old : ℕ) (s : Server) → GamesFine s → GamesFine (drop_permissions p old s)
unfolding drop_permissions
drop_permissions-Fine p old s w =
    if_cases GamesFine
      (not (bytes_eq (s.client_at old).user_name (s.client_at p).user_name)
        && not (is_unregistered (s.client_at p).permissions))
      (λ _. modify-Fine p _ s w) (λ _. w)

replace_client-Fine : (p old : ℕ) (s : Server) → GamesFine s → GamesFine (replace_client p old s)
unfolding replace_client
replace_client-Fine p old s w = login_done-Fine p _ (remove_client-Fine old _ (modify-Fine p _ s w))

pub wait_for_client-Fine :
    (p old time : ℕ) (s : Server) → GamesFine s → GamesFine (wait_for_client p old time s)
unfolding wait_for_client
wait_for_client-Fine p old time s w = modify-Fine old _ _ (restart_ping_loop-Fine old time s w)

check_loop-Fine : (p : ℕ) (cs : List ℕ) (s : Server) → GamesFine s → GamesFine (check_loop p cs s)
unfolding check_loop
check_loop-Fine p [] s w =
    if_cases GamesFine (is_handshake (s.client_at p).state) (λ _. find_unconnected_name-Fine p s w)
      (λ _. refuse-Fine p s w)
check_loop-Fine p (old ∷ rest) s w =
    let f = λ (c : Client). record c { replace_candidates = some rest } in
    let t = drop_permissions p old (modify_client p f s) in
    let w' : GamesFine t = drop_permissions-Fine p old _ (modify-Fine p f s w) in
    if_cases GamesFine (not (is_handshake (s.client_at p).state)) (λ _. refuse-Fine p s w)
      λ _.
        if_cases GamesFine (is_some (t.client_at old).pending_login)
          (λ _. check_loop-Fine p rest t w')
          λ _.
            if_cases GamesFine (is_recently_disconnected (t.client_at old).state)
              (λ _. replace_client-Fine p old t w')
              (λ _. wait_for_client-Fine p old (t.ping_cycle_time / 5) t w')

pub check_candidates-Fine : (p : ℕ) (s : Server) → GamesFine s → GamesFine (check_candidates p s)
unfolding check_candidates
check_candidates-Fine p s w = check_loop-Fine p _ s w

pub find_replace_candidates-Fine :
    (p : ℕ) (r : Bool) (s : Server) → GamesFine s → GamesFine (find_replace_candidates p r s)
unfolding find_replace_candidates
find_replace_candidates-Fine p r s₀ w₀ =
    let c = s₀.client_at p in
    let found = find_clients_to_replace c.nonce c.user_name s₀ in
    let f = λ (c' : Client). record c' { replace_candidates = some found } in
    let s = modify_client p f s₀ in
    let w : GamesFine s = modify-Fine p f s₀ w₀ in
    let user = has_client c.user_name s in
    if_cases GamesFine (length found == 0)
      (λ _.
        if_cases GamesFine (not (is_some user) && (r || not (s.user_db.contains_name c.user_name)))
          (λ _. login_done-Fine p s w)
          λ _.
            if_cases GamesFine (pointer_eq user (has_irc_client c.user_name s) && r)
              (λ _. login_done-Fine p s w) (λ _. find_unconnected_name-Fine p s w))
      (λ _. check_candidates-Fine p s w)
