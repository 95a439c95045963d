-- ===== src/Rpc/ToMetaserver.antt =====
-- wlnr/relayinterface/server_rpc.go: the relay calls the metaserver.
use widelands_metaserver.Base.{
  Bool, true, false, ℕ, zero, suc, Option, none, some, Bytes, str, ◌++◌, [],
}
use widelands_metaserver.Rpc.{GameData, err_shutdown, Transport}

-- ServerRPC, with the world that it runs in.
pub record ServerRpc (W : Type 0) : Type 0 where
  pub client : Option ℕ  -- none for nil
  pub world : W

abbrev pub metaserver_port : Bytes
metaserver_port = str "localhost:7399"

module _ {W : Type 0} (t : Transport W) where
  -- connect: the new connection for true, none for false.
  unfoldable pub connect : ServerRpc W → Option ℕ × ServerRpc W
  connect c =
      let (found, w) = t.dial metaserver_port c.world in
      elim found [
        | none ↦ (none, record { client = c.client; world = w })
        | some k ↦ (some k, record { client = some k; world = w })
      ]

  -- The loop of callClientMethod, with the rounds that are left and the connection.
  unfoldable pub call_metaserver : ℕ → ℕ → Bytes → GameData → ServerRpc W → ServerRpc W
  call_metaserver zero k method in_data c = c
  call_metaserver (suc n) k method in_data c =
      let (outcome, w) = t.call k method in_data c.world in
      let c₁ : ServerRpc W = record { client = c.client; world = w } in
      let (connected, c₂) = connect c₁ in
      elim outcome [
        | err_shutdown ↦ elim connected [
          | some q ↦ call_metaserver n q method in_data c₂
          | none ↦ c₂
        ]
        | _ ↦ c₁
      ]

  -- callClientMethod
  unfoldable pub call_client_method : Bytes → Bytes → ServerRpc W → ServerRpc W
  call_client_method action game_name c =
      let method = str "ClientRPCMethods." ++ action in
      let in_data : GameData = record { name = game_name; password = [] } in
      let (connected, c') = connect c in
      elim c.client [
        | some k ↦ call_metaserver 2 k method in_data c
        | none ↦ elim connected [ some k ↦ call_metaserver 2 k method in_data c' | none ↦ c' ]
      ]

  -- GameConnected
  unfoldable pub game_connected : Bytes → ServerRpc W → ServerRpc W
  game_connected name c = call_client_method (str "GameConnected") name c

  -- GameClosed
  unfoldable pub game_closed : Bytes → ServerRpc W → ServerRpc W
  game_closed name c = call_client_method (str "GameClosed") name c

-- NewServerRPC, with whether the own port can be listened on. If not, that is only logged, and the goroutine
-- that waits for connections follows a nil listener: none for the panic.
unfoldable pub new_server_rpc : {W : Type 0} → Bool → W → Option (ServerRpc W)
new_server_rpc true w = some (record { client = none; world = w })
new_server_rpc false w = none
