-- ===== src/Metaserver/Banned/Laws.antt =====
-- wlms/server.go: who is banned, and for how long.
use widelands_metaserver.Base.{
  ℕ, ◌+◌, ◌*◌, ◌≤◌, Bool, false, ◌&&◌, ◌||◌, some, List, [], ◌∷◌, ◌++◌, leb, Bytes, bytes_eq,
  bytes_eq_refl, ◌≡◌, refl, ◌∙◌, arith,
}
use widelands_metaserver.Metaserver.World.{Conn, BannedIp, Server, nanoseconds}
use widelands_metaserver.Metaserver.Banned.{
  ban_until, add_kicked_client, add_banned_client, scan_banned, is_banned_client,
}

-- Some entry for the address has not run out.
unfoldable pub banned_at : ℕ → Bytes → List BannedIp → Bool
banned_at now ip [] = false
banned_at now ip (e ∷ es) = (leb now e.until && bytes_eq e.ip ip) || banned_at now ip es

scan_banned_eq :
    (now : ℕ) (ip : Bytes) (es : List BannedIp) → (scan_banned now ip es).0 ≡ banned_at now ip es
unfolding scan_banned banned_at
scan_banned_eq now ip [] = refl
scan_banned_eq now ip (e ∷ es) = ground (arith, scan_banned_eq now ip es)

-- What the scan throws away had run out: nobody's ban is shortened by it.
scan_banned_keeps :
    (now later : ℕ) (ip other : Bytes) (es : List BannedIp)
    → now ≤ later
    → banned_at later other (scan_banned now ip es).1 ≡ banned_at later other es
unfolding scan_banned banned_at
scan_banned_keeps now later ip other [] h = refl
scan_banned_keeps now later ip other (e ∷ es) h =
    ground (arith, scan_banned_keeps now later ip other es h)

-- A client with a connection is banned exactly if some entry for its address has not run out; the check
-- shortens nobody's ban: at every time from now on the same addresses are banned as before it; and it changes
-- nothing but the list.
pub is_banned_client_iff :
    (p : ℕ) (a : Conn) (later : ℕ) (other : Bytes) (s : Server)
    → (s.client_at p).conn ≡ some a
    → s.now ≤ later
    → ((is_banned_client p s).0 ≡ banned_at s.now a.ip s.banned)
      × (banned_at later other (is_banned_client p s).1.banned ≡ banned_at later other s.banned)
      × ((is_banned_client p s).1 ≡ record s { banned = (is_banned_client p s).1.banned })
unfolding is_banned_client
is_banned_client_iff p a later other s h k = (
  ground (arith, scan_banned_eq s.now a.ip s.banned),
  rw (h, is_banned_client) (scan_banned_keeps s.now later a.ip other s.banned k),
  ground arith,
)

banned_at-append :
    (now : ℕ) (ip : Bytes) (es fs : List BannedIp)
    → banned_at now ip (es ++ fs) ≡ (banned_at now ip es || banned_at now ip fs)
unfolding banned_at
banned_at-append now ip [] fs = refl
banned_at-append now ip (e ∷ es) fs = ground (arith, banned_at-append now ip es fs)

lasts :
    (p : ℕ) (a : Conn) (t d : ℕ) (s : Server)
    → (s.client_at p).conn ≡ some a
    → banned_at (s.now + d) a.ip (ban_until p (s.now + t) s).banned
      ≡ (banned_at (s.now + d) a.ip s.banned || leb d t)
unfolding ban_until banned_at
lasts p a t d s h =
    rw (h, ban_until)
      (banned_at-append (s.now + d) a.ip s.banned (record { ip = a.ip; until = s.now + t } ∷ [])
        ∙ ground (arith, bytes_eq_refl a.ip))

-- A ban holds for every client with the address, from now until its end, and after that the address is
-- banned only if another entry says so: the end of a kick is five minutes from now, of a ban 24 hours.
pub ban_lasts :
    (p : ℕ) (a : Conn) (d : ℕ) (s : Server)
    → (s.client_at p).conn ≡ some a
    → (banned_at (s.now + d) a.ip (add_kicked_client p s).banned
        ≡ (banned_at (s.now + d) a.ip s.banned || leb d (5 * 60 * nanoseconds)))
      × (banned_at (s.now + d) a.ip (add_banned_client p s).banned
          ≡ (banned_at (s.now + d) a.ip s.banned || leb d (24 * 60 * 60 * nanoseconds)))
unfolding add_kicked_client add_banned_client
ban_lasts p a d s h =
    (lasts p a (5 * 60 * nanoseconds) d s h, lasts p a (24 * 60 * 60 * nanoseconds) d s h)
