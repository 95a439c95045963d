-- ===== src/Metaserver/Pinger.antt =====
-- wlms/server.go: RealGamePingerFactory, which asks a host whether it can be reached.
use widelands_metaserver.Base.{
  ℕ, ◌-◌, Bool, false, ◌&&◌, Option, none, some, [], ◌∷◌, ◌++◌, ◌==◌, length, replicate, Bytes,
  bytes_eq,
}

-- NETCMD_METASERVER_PING
abbrev pub metaserver_ping : Bytes
metaserver_ping = 0 ∷ 3 ∷ b'@' ∷ []

-- What the network gives: whether the host could be dialled, how many bytes were written, and the bytes of
-- one call of Read, at most as many as the buffer holds; none for an error.
pub record Attempt : Type 0 where
  pub dialled : Bool
  pub written : Option ℕ
  pub read : Option Bytes

-- The buffer after the call of Read, which may give fewer bytes.
unfoldable pub buffer : Bytes → Bytes
buffer bs = bs ++ replicate (length metaserver_ping - length bs) 0

-- What the pinger sends on its channel.
unfoldable pub ping_answer : Attempt → Bool
ping_answer a =
    a.dialled
    && (elim a.written [ none ↦ false | some n ↦ n == length metaserver_ping ]
        && elim a.read [ none ↦ false | some bs ↦ bytes_eq (buffer bs) metaserver_ping ])
