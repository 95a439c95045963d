-- ===== src/Metaserver/Clients/Frame.antt =====
-- What most operations of wlms leave alone: who is listed, under which name and with which rights.
use widelands_metaserver.Base.{
  ℕ, Bool, true, false, List, [], ◌∷◌, if◌then◌else◌, ◌≡◌, refl, ap, ◌∙◌, arith, Option-cases, inl,
  inr,
}
use widelands_metaserver.Packet.{Field, new}
use widelands_metaserver.Metaserver.World.{
  State, handshake, check_pwd, connected, recently_disconnected, is_connected, Client, Server,
  put_client, crash,
}
use widelands_metaserver.Metaserver.Clients.{
  send_packet, broadcast_loop, broadcast_to_connected_clients, clients_update, assign_state,
  set_state, disconnect,
}

pub record Keeps (s t : Server) : Type 0 where
  pub clients : t.clients ≡ s.clients
  pub games : t.games ≡ s.games
  pub user_db : t.user_db ≡ s.user_db
  pub banned : t.banned ≡ s.banned
  pub now : t.now ≡ s.now
  pub names : (q : ℕ) → (t.client_at q).user_name ≡ (s.client_at q).user_name
  pub rights : (q : ℕ) → (t.client_at q).permissions ≡ (s.client_at q).permissions

-- A change of other fields of the server.
pub Keeps-of_fields :
    {s t : Server}
    → t.clients ≡ s.clients
    → t.games ≡ s.games
    → t.user_db ≡ s.user_db
    → t.banned ≡ s.banned
    → t.now ≡ s.now
    → t.client_at ≡ s.client_at
    → Keeps s t
Keeps-of_fields c g d b n a = record {
  clients = c;
  games = g;
  user_db = d;
  banned = b;
  now = n;
  names = λ q. ap (λ f. (f q).user_name) a;
  rights = λ q. ap (λ f. (f q).permissions) a;
}

pub Keeps-refl : (s : Server) → Keeps s s
Keeps-refl s = Keeps-of_fields refl refl refl refl refl refl

pub Keeps-trans : {s t u : Server} → Keeps s t → Keeps t u → Keeps s u
Keeps-trans h k = record {
  clients = k.clients ∙ h.clients;
  games = k.games ∙ h.games;
  user_db = k.user_db ∙ h.user_db;
  banned = k.banned ∙ h.banned;
  now = k.now ∙ h.now;
  names = λ q. k.names q ∙ h.names q;
  rights = λ q. k.rights q ∙ h.rights q;
}

-- A choice between two states that both keep.
pub Keeps-if : (b : Bool) {s t u : Server} → Keeps s t → Keeps s u → Keeps s (if b then t else u)
Keeps-if true h k = h
Keeps-if false h k = k

-- A write to a client that leaves its name and its rights.
pub put_client-Keeps :
    (p : ℕ) (c : Client) (s : Server)
    → c.user_name ≡ (s.client_at p).user_name
    → c.permissions ≡ (s.client_at p).permissions
    → Keeps s (put_client p c s)
unfolding put_client
put_client-Keeps p c s n r = record {
  clients = refl;
  games = refl;
  user_db = refl;
  banned = refl;
  now = refl;
  names = λ q. ground arith;
  rights = λ q. ground arith;
}

pub send_packet-Keeps : (p : ℕ) (d : List Field) (s : Server) → Keeps s (send_packet p d s)
unfolding send_packet crash
send_packet-Keeps p d s = elim (Option-cases (s.client_at p).conn) [
  | inl e ↦ rw (e, send_packet) (Keeps-refl s)
  | inr (a, e) ↦ elim (Option-cases (new d)) [
    | inl f ↦ rw (e, f, send_packet) (Keeps-of_fields refl refl refl refl refl refl)
    | inr (b, f) ↦ rw (e, f, send_packet) (Keeps-of_fields refl refl refl refl refl refl)
  ]
]

broadcast_loop-Keeps : (ps : List ℕ) (d : List Field) (s : Server) → Keeps s (broadcast_loop ps d s)
unfolding broadcast_loop
broadcast_loop-Keeps [] d s = Keeps-refl s
broadcast_loop-Keeps (p ∷ ps) d s =
    Keeps-trans
      (Keeps-if (is_connected (s.client_at p).state) (send_packet-Keeps p d s) (Keeps-refl s))
      (broadcast_loop-Keeps ps d _)

pub broadcast-Keeps : (d : List Field) (s : Server) → Keeps s (broadcast_to_connected_clients d s)
unfolding broadcast_to_connected_clients
broadcast-Keeps d s = broadcast_loop-Keeps s.clients d s

pub assign_state-Keeps : (p : ℕ) (st : State) (s : Server) → Keeps s (assign_state p st s)
unfolding assign_state
assign_state-Keeps p st s =
    Keeps-if _ (Keeps-trans (put_client-Keeps p _ s refl refl) (broadcast-Keeps clients_update _))
      (put_client-Keeps p _ s refl refl)

pub set_state-Keeps : (p : ℕ) (st : State) (s : Server) → Keeps s (set_state p st s)
unfolding set_state crash
set_state-Keeps p check_pwd s = Keeps-of_fields refl refl refl refl refl refl
set_state-Keeps p handshake s = assign_state-Keeps p _ s
set_state-Keeps p connected s = assign_state-Keeps p _ s
set_state-Keeps p recently_disconnected s = assign_state-Keeps p _ s

pub disconnect-Keeps : (p : ℕ) (s : Server) → Keeps s (disconnect p s)
unfolding disconnect crash
disconnect-Keeps p s = elim (Option-cases (s.client_at p).conn) [
  | inl e ↦ rw (e, disconnect) (Keeps-of_fields refl refl refl refl refl refl)
  | inr (a, e) ↦
      rw (e, disconnect)
        (Keeps-trans (Keeps-of_fields refl refl refl refl refl refl)
          (set_state-Keeps p recently_disconnected _))
]
