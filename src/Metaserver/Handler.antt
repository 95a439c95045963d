-- ===== src/Metaserver/Handler.antt =====
-- wlms/client.go: the errors that a handler returns, the protocol versions, and small steps that
-- several handlers take.
use widelands_metaserver.Base.{
  ℕ, Bool, true, ◌||◌, Option, none, some, List, [], ◌∷◌, if◌then◌else◌, is_some, ℤ, pos, eq_ℤ,
  Bytes, str,
}
use widelands_metaserver.Packet.{Field, text, Packet, ok, err, read_string}
use widelands_metaserver.Metaserver.World.{Client, Server, put_client, is_connected, crash}
use widelands_metaserver.Metaserver.Clients.{send_packet}

pub data CmdError : Type 0 where
  cmd_packet_error : Bytes → CmdError
  critical_cmd_packet_error : Bytes → CmdError
  invalid_packet_error : CmdError

-- What a handler gives: its error, if any, and the new state.
abbrev pub Reply : Type 0
Reply = Option CmdError × Server

abbrev pub done : Server → Reply
done s = (none, s)

abbrev pub fail : Bytes → Server → Reply
fail e s = (some (cmd_packet_error e), s)

abbrev pub fail_critical : Bytes → Server → Reply
fail_critical e s = (some (critical_cmd_packet_error e), s)

abbrev pub build19 : ℤ
build19 = pos 0

abbrev pub build20 : ℤ
build20 = pos 5

abbrev pub build21 : ℤ
build21 = pos 6

unfoldable pub is_supported_version : ℤ → Bool
is_supported_version v = eq_ℤ v build19 || (eq_ℤ v build20 || eq_ℤ v build21)

-- A change of the fields of a client.
unfoldable pub modify_client : ℕ → (Client → Client) → Server → Server
unfolding put_client
modify_client p f s = put_client p (f (s.client_at p)) s

-- A message of the server itself.
abbrev pub system_chat : Bytes → List Field
system_chat m = text (str "CHAT") ∷ text [] ∷ text m ∷ text (str "system") ∷ []

abbrev pub error_packet : Bytes → Bytes → List Field
error_packet cmd e = text (str "ERROR") ∷ text cmd ∷ text e ∷ []

-- Client.restartPingLoop. The call of Reset on a nil timer panics.
unfoldable pub restart_ping_loop : ℕ → ℕ → Server → Server
restart_ping_loop p time s =
    let s' =
      if is_connected (s.client_at p).state
      then modify_client p (λ c. record c { waiting_for_pong = true })
          (send_packet p (text (str "PING") ∷ []) s)
      else s in
    if is_some (s.client_at p).start_to_ping_timer
    then modify_client p (λ c. record c { start_to_ping_timer = some time }) s'
    else crash s'

-- The rest of a handler after `ReadString`, or the error, as one that is critical or not.
abbrev pub with_string : (Bytes → CmdError) → Packet → Server → (Bytes → Packet → Reply) → Reply
with_string e pkg s k = elim (read_string pkg) [ err m ↦ (some (e m), s) | ok (v, pkg') ↦ k v pkg' ]
