-- ===== src/Metaserver/Banned.antt =====
-- wlms/server.go: the list of banned addresses.
pub mod Laws
use widelands_metaserver.Base.{
  ℕ, ◌+◌, ◌*◌, Bool, true, false, none, some, List, [], ◌∷◌, ◌++◌, ltb, if◌then◌else◌, Bytes,
  bytes_eq,
}
use widelands_metaserver.Metaserver.World.{BannedIp, Server, crash, nanoseconds}

-- A new entry for the address of a client. Without a connection the type assertion panics.
unfoldable pub ban_until : ℕ → ℕ → Server → Server
ban_until p t s = elim (s.client_at p).conn [
  | none ↦ crash s
  | some a ↦ record s { banned = s.banned ++ (record { ip = a.ip; until = t } ∷ []) }
]

-- Server.AddKickedClient: five minutes.
unfoldable pub add_kicked_client : ℕ → Server → Server
add_kicked_client p s = ban_until p (s.now + 5 * 60 * nanoseconds) s

-- Server.AddBannedClient: 24 hours.
unfoldable pub add_banned_client : ℕ → Server → Server
add_banned_client p s = ban_until p (s.now + 24 * 60 * 60 * nanoseconds) s

-- The loop of Server.IsBannedClient: the answer, and the list less the entries that ran out before
-- the address was found.
unfoldable pub scan_banned : ℕ → Bytes → List BannedIp → Bool × List BannedIp
scan_banned now ip [] = (false, [])
scan_banned now ip (e ∷ es) =
    let (found, rest) = scan_banned now ip es in
    if ltb e.until now
    then (found, rest)
    else if bytes_eq e.ip ip
    then (true, e ∷ es)
    else (found, e ∷ rest)

-- Server.IsBannedClient
unfoldable pub is_banned_client : ℕ → Server → Bool × Server
is_banned_client p s = elim (s.client_at p).conn [
  | none ↦ (false, crash s)
  | some a ↦
      let (found, rest) = scan_banned s.now a.ip s.banned in (found, record s { banned = rest })
]
