-- ===== src/Rpc/ToRelay.antt =====
-- wlnr/relayinterface/client_rpc.go: the metaserver calls the relay.
use widelands_metaserver.Base.{ℕ, zero, suc, Bool, true, false, Option, none, some, [], Bytes, str}
use widelands_metaserver.Rpc.{GameData, answered, err_shutdown, err_other, Transport}

-- ClientRPC, with the world that it runs in.
pub record ClientRpc (W : Type 0) : Type 0 where
  pub relay : ℕ
  pub world : W

abbrev pub relay_port : Bytes
relay_port = str "localhost:7398"

module _ {W : Type 0} (t : Transport W) where
  -- connect
  unfoldable pub connect : ClientRpc W → Bool × ClientRpc W
  connect c =
      let (found, w) = t.dial relay_port c.world in
      elim found [
        | none ↦ (false, record { relay = c.relay; world = w })
        | some k ↦ (true, record { relay = k; world = w })
      ]

  -- The loop of CreateGame and RemoveGame, with the rounds that are left.
  unfoldable pub call_relay : ℕ → Bytes → GameData → ClientRpc W → Bool × ClientRpc W
  call_relay zero method in_data c = (false, c)
  call_relay (suc n) method in_data c =
      let (outcome, w) = t.call c.relay method in_data c.world in
      let c₁ : ClientRpc W = record { relay = c.relay; world = w } in
      let (connected, c₂) = connect c₁ in
      let again = call_relay n method in_data c₂ in
      elim outcome [
        | answered success ↦ (success, c₁)
        | err_other ↦ (false, c₁)
        | err_shutdown ↦ elim connected [ true ↦ again | false ↦ (false, c₂) ]
      ]

  -- CreateGame
  unfoldable pub create_game : Bytes → Bytes → ClientRpc W → Bool × ClientRpc W
  create_game name host_password c =
      call_relay 2 (str "ServerRPCMethods.NewGame")
        (record { name = name; password = host_password }) c

  -- RemoveGame
  unfoldable pub remove_game : Bytes → ClientRpc W → Bool × ClientRpc W
  remove_game name c =
      call_relay 2 (str "ServerRPCMethods.RemoveGame") (record { name = name; password = [] }) c

  -- NewClientRPC: none for nil. The second argument is whether the own port can be listened on.
  unfoldable pub new_client_rpc : Bool → W → Option (ClientRpc W) × W
  new_client_rpc listening w =
      let (found, w') = t.dial relay_port w in
      elim found [
        | none ↦ (none, w')
        | some k ↦ elim listening [
          | true ↦ (some (record { relay = k; world = w' }), w')
          | false ↦ (none, w')
        ]
      ]
