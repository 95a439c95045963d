-- ===== src/Metaserver/Login/Timers.antt =====
-- wlms/client.go: a login that pings a client without timers, as IRC users are.
use widelands_metaserver.Base.{
  ℕ, Bool, true, false, ◌/◌, none, some, List, ◌∷◌, ◌==◌, ◌≡◌, refl, ap, ◌∙◌, arith, Bool-cases,
  inl, inr, length, bytes_eq, not, ◌&&◌,
}
use widelands_metaserver.Metaserver.World.{
  is_unregistered, handshake, connected, Client, Server, put_client, crash,
}
use widelands_metaserver.Metaserver.Clients.{find_clients_to_replace}
use widelands_metaserver.Metaserver.Handler.{modify_client, restart_ping_loop}
use widelands_metaserver.Metaserver.Login.{
  name_of, find_replace_candidates, check_candidates, candidates, check_loop, wait_for_client,
  drop_permissions,
}
use widelands_metaserver.Metaserver.Login.Newcomer.{modify_client_self}

-- Without a timer the restart of the ping loop panics.
restart_crashes :
    (old time : ℕ) (s : Server)
    → (s.client_at old).start_to_ping_timer ≡ none
    → (restart_ping_loop old time s).crashed ≡ true
unfolding crash restart_ping_loop
restart_crashes old time s h = rw (h, restart_ping_loop) refl

wait_crashes :
    (p old time : ℕ) (s : Server)
    → (s.client_at old).start_to_ping_timer ≡ none
    → (wait_for_client p old time s).crashed ≡ true
unfolding wait_for_client modify_client put_client
wait_crashes p old time s h = restart_crashes old time s h

-- A write to one client leaves another.
modify_client_other :
    (p q : ℕ) (f : Client → Client) (s : Server)
    → (q == p) ≡ false
    → (modify_client p f s).client_at q ≡ s.client_at q
unfolding modify_client put_client
modify_client_other p q f s ne = rw ne refl

drop_permissions_other :
    (p q old : ℕ) (s : Server)
    → (q == p) ≡ false
    → (drop_permissions p old s).client_at q ≡ s.client_at q
unfolding drop_permissions
drop_permissions_other p q old s ne =
    let c = s.client_at p in
    let o = s.client_at old in
    elim (Bool-cases
      (not (bytes_eq o.user_name c.user_name) && not (is_unregistered c.permissions))) [
        | inl e ↦ rw e (modify_client_other p q _ s ne)
        | inr e ↦ rw e refl
      ]

check_crashes :
    (p q : ℕ) (rest : List ℕ) (s : Server)
    → (q == p) ≡ false
    → (s.client_at p).state ≡ handshake
    → (s.client_at q).state ≡ connected
    → (s.client_at q).pending_login ≡ none
    → (s.client_at q).start_to_ping_timer ≡ none
    → (check_loop p (q ∷ rest) s).crashed ≡ true
unfolding check_loop
check_crashes p q rest s ne hs cs pend timer =
    let f = λ (c : Client). record c { replace_candidates = some rest } in
    let t = drop_permissions p q (modify_client p f s) in
    let same : t.client_at q ≡ s.client_at q =
      drop_permissions_other p q q (modify_client p f s) ne ∙ modify_client_other p q f s ne in
    rw (hs, same, pend, cs)
      (wait_crashes p q (t.ping_cycle_time / 5) t
        (ap (λ (c : Client). c.start_to_ping_timer) same ∙ timer))

-- If the first client that a login could replace is connected, waits for no other login and has no
-- timer, the login ends the process in a panic.
pub login_meets_no_timer :
    (p q : ℕ) (rest : List ℕ) (r : Bool) (s : Server)
    → find_clients_to_replace (s.client_at p).nonce (name_of p s) s ≡ q ∷ rest
    → (q == p) ≡ false
    → (s.client_at p).state ≡ handshake
    → (s.client_at q).state ≡ connected
    → (s.client_at q).pending_login ≡ none
    → (s.client_at q).start_to_ping_timer ≡ none
    → (find_replace_candidates p r s).crashed ≡ true
unfolding find_replace_candidates check_candidates
login_meets_no_timer p q rest r s found ne hs cs pend timer =
    let f = λ (c : Client). record c { replace_candidates = some (q ∷ rest) } in
    let t = modify_client p f s in
    let same = modify_client_other p q f s ne in
    let self = modify_client_self p f s in
    let out =
      check_crashes p q rest t ne (ap (λ (c : Client). c.state) self ∙ hs)
        (ap (λ (c : Client). c.state) same ∙ cs) (ap (λ (c : Client). c.pending_login) same ∙ pend)
        (ap (λ (c : Client). c.start_to_ping_timer) same ∙ timer) in
    let listed = ap (λ (c : Client). candidates c.replace_candidates) self in
    let some_found : (length (q ∷ rest) == 0) ≡ false = ground arith in
    rw (found, some_found, listed) out
