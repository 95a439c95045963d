-- ===== src/Metaserver/Login/Done.antt =====
-- wlms/client.go: what loginDone leaves behind.
use widelands_metaserver.Base.{
  if_cases, ℕ, true, false, not, ◌&&◌, none, List, [], ◌∷◌, ◌++◌, ◌==◌, ==_refl, if◌then◌else◌, ◌≡◌,
  refl, ap, ◌∙◌, arith, length, is_some, Option-cases, inl, inr,
}
use widelands_metaserver.Packet.{Field, new}
use widelands_metaserver.Metaserver.World.{
  State, connected, is_handshake, is_irc, is_connected, is_recently_disconnected, Client, Server,
  put_client, crash,
}
use widelands_metaserver.Metaserver.Clients.{
  send_packet, broadcast_loop, broadcast_to_connected_clients, clients_update, assign_state,
  set_state, add_client, contains, need_broadcast,
}
use widelands_metaserver.Metaserver.Handler.{system_chat}
use widelands_metaserver.Metaserver.Login.{name_of, login_done, send_all, welcome}
use widelands_metaserver.Metaserver.Login.Newcomer.{
  after_listing, after_listing-Keeps, send_all-Keeps, refuse-Keeps, modify_client_self,
}

-- Sending changes no client.
pub send_packet_at :
    (p : ℕ) (d : List Field) (s : Server) → (send_packet p d s).client_at ≡ s.client_at
unfolding send_packet crash
send_packet_at p d s = elim (Option-cases (s.client_at p).conn) [
  | inl e ↦ rw (e, send_packet) refl
  | inr (a, e) ↦ elim (Option-cases (new d)) [
    | inl f ↦ rw (e, f, send_packet) refl
    | inr (b, f) ↦ rw (e, f, send_packet) refl
  ]
]

broadcast_loop_at :
    (ps : List ℕ) (d : List Field) (s : Server) → (broadcast_loop ps d s).client_at ≡ s.client_at
unfolding broadcast_loop
broadcast_loop_at [] d s = refl
broadcast_loop_at (p ∷ ps) d s =
    broadcast_loop_at ps d _
    ∙ if_cases (λ (t : Server). t.client_at ≡ s.client_at) (is_connected (s.client_at p).state)
        (λ _. send_packet_at p d s) (λ _. refl)

pub broadcast_at :
    (d : List Field) (s : Server) → (broadcast_to_connected_clients d s).client_at ≡ s.client_at
unfolding broadcast_to_connected_clients
broadcast_at d s = broadcast_loop_at s.clients d s

put_client_self : (p : ℕ) (c : Client) (s : Server) → (put_client p c s).client_at p ≡ c
unfolding put_client
put_client_self p c s = rw (==_refl p)

pub assign_state_at :
    (p : ℕ) (st : State) (s : Server)
    → (assign_state p st s).client_at p ≡ record (s.client_at p) { state = st }
unfolding assign_state
assign_state_at p st s =
    let c = s.client_at p in
    let v = record c { state = st } in
    if_cases (λ (t : Server). t.client_at p ≡ v)
      (need_broadcast c.state st
        && (not (is_recently_disconnected st) && not (is_some c.replace_candidates)))
      {x = broadcast_to_connected_clients clients_update (put_client p v s)} {y = put_client p v s}
      (λ _. ap (λ f. f p) (broadcast_at clients_update (put_client p v s)) ∙ put_client_self p v s)
      (λ _. put_client_self p v s)

-- The client is connected when the login is done.
after_listing_state : (p : ℕ) (s : Server) → ((after_listing p s).client_at p).state ≡ connected
unfolding set_state
after_listing_state p s =
    let s₁ = assign_state p connected s in
    let s₂ = if length s₁.motd == 0 then s₁ else send_packet p (system_chat s₁.motd) s₁ in
    let here = ap (λ c. c.state) (assign_state_at p connected s) in
    ap (λ c. c.state) (modify_client_self p (λ c. record c { replace_candidates = none }) s₂)
    ∙ if_cases (λ (t : Server). (t.client_at p).state ≡ connected) (length s₁.motd == 0) {x = s₁}
        {y = send_packet p (system_chat s₁.motd) s₁} (λ _. here)
        (λ _. ap (λ f. (f p).state) (send_packet_at p (system_chat s₁.motd) s₁) ∙ here)

contains-push : (p : ℕ) (ps : List ℕ) → contains p (ps ++ (p ∷ [])) ≡ true
unfolding contains
contains-push p [] = ground (arith, ==_refl p)
contains-push p (q ∷ qs) = ground (arith, contains-push p qs)

add_client_listed : (p : ℕ) (s : Server) → contains p (add_client p s).clients ≡ true
unfolding add_client
add_client_listed p s =
    if_cases (λ (t : Server). contains p t.clients ≡ true) (is_irc (s.client_at p).permissions)
      (λ _. contains-push p s.clients) (λ _. contains-push p s.clients)

add_client_at : (p : ℕ) (s : Server) → (add_client p s).client_at ≡ s.client_at
unfolding add_client
add_client_at p s =
    if_cases (λ (t : Server). t.client_at ≡ s.client_at) (is_irc (s.client_at p).permissions)
      (λ _. refl) (λ _. refl)

-- A login that is done in HANDSHAKE leaves the client connected and listed, under its name and with its
-- permissions.
pub login_done_result :
    (p : ℕ) (s : Server)
    → is_handshake (s.client_at p).state ≡ true
    → let t = login_done p s in
      ((t.client_at p).state ≡ connected)
      × (contains p t.clients ≡ true)
      × (name_of p t ≡ name_of p s)
      × ((t.client_at p).permissions ≡ (s.client_at p).permissions)
unfolding login_done
login_done_result p s on =
    let k = send_all-Keeps p (welcome (s.client_at p) s.now) s in
    let t = add_client p (send_all p (welcome (s.client_at p) s.now) s) in
    let j = after_listing-Keeps p t in
    rw on (
      after_listing_state p t,
      ap (contains p) j.clients ∙ add_client_listed p _,
      j.names p ∙ ap (λ f. (f p).user_name) (add_client_at p _) ∙ k.names p,
      j.rights p ∙ ap (λ f. (f p).permissions) (add_client_at p _) ∙ k.rights p,
    )

-- In another state it lists nobody.
pub login_done_refused :
    (p : ℕ) (s : Server)
    → is_handshake (s.client_at p).state ≡ false
    → (login_done p s).clients ≡ s.clients
unfolding login_done
login_done_refused p s off = rw off (refuse-Keeps p s).clients
