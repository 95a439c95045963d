-- ===== src/Metaserver/Run/Shutdown.antt =====
-- wlms/server.go: the shutdown of the main loop.
use widelands_metaserver.Base.{
  ℕ, Bool, true, false, not, ◌||◌, List, [], ◌∷◌, if◌then◌else◌, ◌≡◌, refl, ◌∙◌, arith,
  Option-cases, inl, inr,
}
use widelands_metaserver.Packet.{encodable}
use widelands_metaserver.Metaserver.World.{
  State, recently_disconnected, Client, Server, put_client, crash,
}
use widelands_metaserver.Metaserver.Clients.{
  broadcast_to_connected_clients, clients_update, assign_state, set_state, disconnect,
}
use widelands_metaserver.Metaserver.Clients.Broadcast.{broadcast_eq, has_conn}
use widelands_metaserver.Metaserver.Run.{shutdown_loop, shutdown}

-- One of the clients has no connection: it is an IRC user.
unfoldable pub some_without_conn : (ℕ → Client) → List ℕ → Bool
some_without_conn at [] = false
some_without_conn at (p ∷ ps) = not (has_conn (at p)) || some_without_conn at ps

-- A state that neither gives a client a connection, nor takes one, nor ends the process.
record SameConns (s t : Server) : Type 0 where
  conns : (q : ℕ) → (t.client_at q).conn ≡ (s.client_at q).conn
  crashed : t.crashed ≡ s.crashed

SameConns-broadcast :
    (s t : Server) → SameConns s t → SameConns s (broadcast_to_connected_clients clients_update t)
unfolding encodable
SameConns-broadcast s t k =
    rw (broadcast_eq clients_update t refl) (record { conns = k.conns; crashed = k.crashed })

SameConns-if :
    (b : Bool) {s t u : Server} → SameConns s t → SameConns s u → SameConns s (if b then t else u)
SameConns-if true h k = h
SameConns-if false h k = k

assign_state-SameConns : (p : ℕ) (st : State) (s : Server) → SameConns s (assign_state p st s)
unfolding assign_state put_client
assign_state-SameConns p st s =
    let t = put_client p (record (s.client_at p) { state = st }) s in
    let here : SameConns s t = record { conns = λ q. ground arith; crashed = refl } in
    SameConns-if _ (SameConns-broadcast s t here) here

disconnect_crashed :
    (p : ℕ) (s : Server) → (disconnect p s).crashed ≡ (not (has_conn (s.client_at p)) || s.crashed)
unfolding disconnect set_state crash
disconnect_crashed p s = elim (Option-cases (s.client_at p).conn) [
  | inl e ↦ rw (e, disconnect) refl
  | inr (a, e) ↦ rw (e, disconnect) (assign_state-SameConns p recently_disconnected _).crashed
]

disconnect_conns :
    (p q : ℕ) (s : Server) → ((disconnect p s).client_at q).conn ≡ (s.client_at q).conn
unfolding disconnect set_state crash
disconnect_conns p q s = elim (Option-cases (s.client_at p).conn) [
  | inl e ↦ rw (e, disconnect) refl
  | inr (a, e) ↦ rw (e, disconnect) ((assign_state-SameConns p recently_disconnected _).conns q)
]

some_without_conn-same :
    (at at' : ℕ → Client) (ps : List ℕ)
    → ((q : ℕ) → (at' q).conn ≡ (at q).conn)
    → some_without_conn at' ps ≡ some_without_conn at ps
unfolding some_without_conn
some_without_conn-same at at' [] h = refl
some_without_conn-same at at' (p ∷ ps) h = rw (h p, some_without_conn-same at at' ps h)

or_swap : (a b c : Bool) → (a || (b || c)) ≡ ((b || a) || c)
or_swap true true c = refl
or_swap true false c = refl
or_swap false true c = refl
or_swap false false c = refl

shutdown_loop_result :
    (ps : List ℕ) (s : Server)
    → s.clients ≡ ps
    → ((shutdown_loop ps s).clients ≡ [])
      × ((shutdown_loop ps s).crashed ≡ (some_without_conn s.client_at ps || s.crashed))
unfolding shutdown_loop some_without_conn
shutdown_loop_result [] s h = (h, refl)
shutdown_loop_result (p ∷ ps) s h =
    let t = disconnect p s in
    let next = shutdown_loop_result ps (record t { clients = ps }) refl in
    (
      next.0,
      next.1
          ∙ rw
              (
                some_without_conn-same s.client_at t.client_at ps (λ q. disconnect_conns p q s),
                disconnect_crashed p s,
              )
              (or_swap (some_without_conn s.client_at ps) (not (has_conn (s.client_at p)))
                s.crashed),
    )

-- A shutdown takes every client off the list. The process ends before that, in a panic, exactly if
-- one of the listed clients has no connection, which is so for each IRC user.
pub shutdown_result :
    (s : Server)
    → ((shutdown s).clients ≡ [])
      × ((shutdown s).crashed ≡ (some_without_conn s.client_at s.clients || s.crashed))
unfolding shutdown
shutdown_result s = shutdown_loop_result s.clients s refl
