-- ===== src/Rpc/Bounds.antt =====
-- wlnr/relayinterface: a call over RPC is tried twice at most.
use widelands_metaserver.Base.{
  ℕ, zero, suc, ◌+◌, ◌≤◌, arith, inl, inr, Option-cases, Bool-cases, Bytes,
}
use widelands_metaserver.Rpc.{Outcome-cases, GameData, Transport}
use widelands_metaserver.Rpc.ToRelay
use widelands_metaserver.Rpc.ToMetaserver
use widelands_metaserver.Rpc.Reach.{CountsCalls}

module _ {W : Type 0} (t : Transport W) (count : W → ℕ) (counts : CountsCalls t count) where
  connect_count : (c : ToRelay.ClientRpc W) → count (ToRelay.connect t c).1.world ≤ count c.world
  unfolding ToRelay.connect
  connect_count c = elim (Option-cases (t.dial ToRelay.relay_port c.world).0) [
    | inl e ↦ rw (ToRelay.connect, e) (counts.dial ToRelay.relay_port c.world)
    | inr (k, e) ↦ rw (ToRelay.connect, e) (counts.dial ToRelay.relay_port c.world)
  ]

  call_relay_count :
      (n : ℕ) (method : Bytes) (d : GameData) (c : ToRelay.ClientRpc W)
      → count (ToRelay.call_relay t n method d c).1.world ≤ n + count c.world
  unfolding ToRelay.call_relay
  call_relay_count zero method d c = omega arith
  call_relay_count (suc n) method d c =
      let once = counts.call c.relay method d c.world in
      let c₁ : ToRelay.ClientRpc W = record {
        relay = c.relay;
        world = (t.call c.relay method d c.world).1;
      } in
      let dialled = connect_count c₁ in
      let again = call_relay_count n method d (ToRelay.connect t c₁).1 in
      elim (Outcome-cases (t.call c.relay method d c.world).0) [
        | inl (b, e) ↦ rw (ToRelay.call_relay, e) (omega (arith, once))
        | inr (inl e) ↦ rw (ToRelay.call_relay, e) (omega (arith, once))
        | inr (inr e) ↦ elim (Bool-cases (ToRelay.connect t c₁).0) [
          | inl f ↦ rw (ToRelay.call_relay, e, f) (omega (arith, once, dialled, again))
          | inr f ↦ rw (ToRelay.call_relay, e, f) (omega (arith, once, dialled))
        ]
      ]

  dial_count :
      (c : ToMetaserver.ServerRpc W) → count (ToMetaserver.connect t c).1.world ≤ count c.world
  unfolding ToMetaserver.connect
  dial_count c = elim (Option-cases (t.dial ToMetaserver.metaserver_port c.world).0) [
    | inl e ↦ rw (ToMetaserver.connect, e) (counts.dial ToMetaserver.metaserver_port c.world)
    | inr (k, e) ↦ rw (ToMetaserver.connect, e) (counts.dial ToMetaserver.metaserver_port c.world)
  ]

  call_metaserver_count :
      (n k : ℕ) (method : Bytes) (d : GameData) (c : ToMetaserver.ServerRpc W)
      → count (ToMetaserver.call_metaserver t n k method d c).world ≤ n + count c.world
  unfolding ToMetaserver.call_metaserver
  call_metaserver_count zero k method d c = omega arith
  call_metaserver_count (suc n) k method d c =
      let once = counts.call k method d c.world in
      let c₁ : ToMetaserver.ServerRpc W = record {
        client = c.client;
        world = (t.call k method d c.world).1;
      } in
      let dialled = dial_count c₁ in
      elim (Outcome-cases (t.call k method d c.world).0) [
        | inl (b, e) ↦ rw (ToMetaserver.call_metaserver, e) (omega (arith, once))
        | inr (inl e) ↦ rw (ToMetaserver.call_metaserver, e) (omega (arith, once))
        | inr (inr e) ↦ elim (Option-cases (ToMetaserver.connect t c₁).0) [
          | inr (q, f) ↦
              rw (ToMetaserver.call_metaserver, e, f)
                (omega (
                  arith,
                  once,
                  dialled,
                  call_metaserver_count n q method d (ToMetaserver.connect t c₁).1,
                ))
          | inl f ↦ rw (ToMetaserver.call_metaserver, e, f) (omega (arith, once, dialled))
        ]
      ]

  action_count :
      (action name : Bytes) (c : ToMetaserver.ServerRpc W)
      → count (ToMetaserver.call_client_method t action name c).world ≤ 2 + count c.world
  unfolding ToMetaserver.call_client_method
  action_count action name c =
      let dialled = dial_count c in
      elim (Option-cases c.client) [
        | inr (k, e) ↦ rw (ToMetaserver.call_client_method, e) (call_metaserver_count 2 k _ _ c)
        | inl e ↦ elim (Option-cases (ToMetaserver.connect t c).0) [
          | inl f ↦ rw (ToMetaserver.call_client_method, e, f) (omega (arith, dialled))
          | inr (k, f) ↦
              rw (ToMetaserver.call_client_method, e, f)
                (omega (arith, dialled, call_metaserver_count 2 k _ _ (ToMetaserver.connect t c).1))
        ]
      ]

-- Whatever the network and the other program do, the loops that redial and try again end after two rounds:
-- CreateGame and RemoveGame call the relay twice at most, GameConnected and GameClosed the metaserver, by
-- any measure that a call raises by one at most and dialling does not raise.
pub called_at_most_twice :
    {W : Type 0} (t : Transport W) (count : W → ℕ) (name password : Bytes) (c : ToRelay.ClientRpc W)
    (s : ToMetaserver.ServerRpc W)
    → CountsCalls t count
    → (count (ToRelay.create_game t name password c).1.world ≤ 2 + count c.world)
      × (count (ToRelay.remove_game t name c).1.world ≤ 2 + count c.world)
      × (count (ToMetaserver.game_connected t name s).world ≤ 2 + count s.world)
      × (count (ToMetaserver.game_closed t name s).world ≤ 2 + count s.world)
unfolding ToRelay.create_game ToRelay.remove_game ToMetaserver.game_connected
    ToMetaserver.game_closed
called_at_most_twice t count name password c s counts = (
  call_relay_count t count counts 2 _ _ c,
  call_relay_count t count counts 2 _ _ c,
  action_count t count counts _ name s,
  action_count t count counts _ name s,
)
