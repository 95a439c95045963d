-- ===== src/Metaserver/Auth/Renamed.antt =====
-- wlms/client.go: Handle_LOGIN gives a client the name that it asks for before it looks at anything else.
use widelands_metaserver.Base.{ℕ, Bool, ℤ, Bytes}
use widelands_metaserver.Packet.{Packet, Parsed, ok, err}
use widelands_metaserver.Metaserver.World.{Server}
use widelands_metaserver.Metaserver.Handler.{modify_client}
use widelands_metaserver.Metaserver.Auth.{login_unpacked}

-- The server after the packet was read.
renamed : ℕ → ℤ → Bytes → Bytes → Server → Server
renamed p v n b s =
    modify_client p (λ c. record c { build_id = b })
      (modify_client p (λ c. record c { user_name = n })
        (modify_client p (λ c. record c { protocol_version = v }) s))

-- What comes after the names were read.
abbrev last_step : ℕ → Server → Parsed (Bool × Packet) → Server
last_step p t (err m) = t
last_step p t (ok x) = (login_unpacked p x.0 x.1 t).1
