-- ===== src/Rpc/Served.antt =====
-- wlnr/relayinterface: what is called over RPC is done by the other program.
use widelands_metaserver.Base.{
  ℕ, suc, Bool, true, false, some, ◌≡◌, refl, ap, ◌∙◌, inl, inr, sym, subst, ◌≢◌, Bytes, str, [],
}
use widelands_metaserver.Relay.State.{Server}
use widelands_metaserver.Relay.Games as RelayGames
use widelands_metaserver.Rpc.{
  Outcome-cases, GameData, Outcome, answered, err_shutdown, err_other, Transport,
}
use widelands_metaserver.Rpc.ToRelay
use widelands_metaserver.Rpc.RelayMethods.{answer, new_game, close_game}
use widelands_metaserver.Rpc.Reach.{Runs, Reaches}

-- Whether an outcome is a success.
abbrev success : Outcome → Bool
success (answered b) = b
success err_shutdown = false
success err_other = false

success-answer : (b : Bool) → success (answer b) ≡ b
success-answer true = refl
success-answer false = refl

answer_done : (b : Bool) → answer b ≢ err_shutdown
answer_done true = cc
answer_done false = cc

module _ {W S : Type 0} (t : Transport W) (other : W → S) where
  -- The answer and the state of the other program after a call.
  abbrev DoneBy : ToRelay.ClientRpc W → Bool × ToRelay.ClientRpc W → Outcome × S → Type 0
  DoneBy c r o = (r.0 ≡ success o.0) × (other r.1.world ≡ o.1)

  -- One call on a connection that is up.
  answered_at_once :
      (n : ℕ) (method : Bytes) (f : GameData → S → Outcome × S) (d : GameData)
      (c : ToRelay.ClientRpc W)
      → (f d (other c.world)).0 ≢ err_shutdown
      → Runs t other c.relay method f c.world
      → DoneBy c (ToRelay.call_relay t (suc n) method d c) (f d (other c.world))
  unfolding ToRelay.call_relay
  answered_at_once n method f d c done up =
      let (said, after) = up d in
      elim (Outcome-cases (t.call c.relay method d c.world).0) [
        | inl (b, e) ↦ rw (ToRelay.call_relay, e) (ap success (sym e ∙ said), after)
        | inr (inl e) ↦ rw (ToRelay.call_relay, e) (ap success (sym e ∙ said), after)
        | inr (inr e) ↦ absurd (done (sym said ∙ e))
      ]

  connect_found :
      (k : ℕ) (c : ToRelay.ClientRpc W)
      → (t.dial ToRelay.relay_port c.world).0 ≡ some k
      → ToRelay.connect t c
        ≡ (true, record { relay = k; world = (t.dial ToRelay.relay_port c.world).1 })
  unfolding ToRelay.connect
  connect_found k c e = rw (ToRelay.connect, e) refl

  -- A round that finds the connection shut down, and a new one.
  call_relay-again :
      (n : ℕ) (method : Bytes) (d : GameData) (c c' : ToRelay.ClientRpc W)
      → (t.call c.relay method d c.world).0 ≡ err_shutdown
      → ToRelay.connect t (record { relay = c.relay; world = (t.call c.relay method d c.world).1 })
        ≡ (true, c')
      → ToRelay.call_relay t (suc n) method d c ≡ ToRelay.call_relay t n method d c'
  unfolding ToRelay.call_relay
  call_relay-again n method d c c' failed found =
      rw (ToRelay.call_relay, failed, found) (ap (λ r. ToRelay.call_relay t n method d r.1) found)

  reached :
      (method : Bytes) (f : GameData → S → Outcome × S) (d : GameData) (c : ToRelay.ClientRpc W)
      → ((s : S) → (f d s).0 ≢ err_shutdown)
      → Reaches t other ToRelay.relay_port c.relay method f c.world
      → DoneBy c (ToRelay.call_relay t 2 method d c) (f d (other c.world))
  reached method f d c done (inl up) = answered_at_once 1 method f d c (done (other c.world)) up
  reached method f d c done (inr (shut, dials)) =
      let (failed, same) = shut d in
      let (k, found, still, up) = dials d in
      let w = (t.call c.relay method d c.world).1 in
      let c' : ToRelay.ClientRpc W = record {
        relay = k;
        world = (t.dial ToRelay.relay_port w).1;
      } in
      let again = call_relay-again 1 method d c c' failed (connect_found k _ found) in
      subst (λ r. DoneBy c r (f d (other c.world))) (sym again)
        (subst (λ s. DoneBy c (ToRelay.call_relay t 1 method d c') (f d s)) (still ∙ same)
          (answered_at_once 0 method f d c' (done (other c'.world)) up))

-- If the connection to the relay is up, or it is shut down and can be dialled again, then CreateGame and
-- RemoveGame of the metaserver's ClientRPC answer what the relay's own CreateGame and RemoveGame
-- answer, and leave the relay in the state in which these leave it: over RPC, each is done exactly once.
pub relay_served :
    {W : Type 0} (t : Transport W) (relay_of : W → Server) (name password : Bytes)
    (c : ToRelay.ClientRpc W)
    → Reaches t relay_of ToRelay.relay_port c.relay
        (str "ServerRPCMethods.NewGame")
        new_game
        c.world
    → Reaches t relay_of ToRelay.relay_port c.relay
        (str "ServerRPCMethods.RemoveGame")
        close_game
        c.world
    → let s = relay_of c.world in
      let created = ToRelay.create_game t name password c in
      let removed = ToRelay.remove_game t name c in
      (created.0 ≡ (RelayGames.create_game name password s).0)
      × (relay_of created.1.world ≡ (RelayGames.create_game name password s).1)
      × (removed.0 ≡ (RelayGames.remove_game name s).0)
      × (relay_of removed.1.world ≡ (RelayGames.remove_game name s).1)
unfolding ToRelay.create_game ToRelay.remove_game new_game close_game
relay_served t relay_of name password c creates removes =
    let s = relay_of c.world in
    let made =
      reached t relay_of _ new_game (record { name = name; password = password }) c
        (λ u. answer_done (RelayGames.create_game name password u).0) creates in
    let closed =
      reached t relay_of _ close_game (record { name = name; password = [] }) c
        (λ u. answer_done (RelayGames.remove_game name u).0) removes in
    (
      made.0 ∙ success-answer (RelayGames.create_game name password s).0,
      made.1,
      closed.0 ∙ success-answer (RelayGames.remove_game name s).0,
      closed.1,
    )
