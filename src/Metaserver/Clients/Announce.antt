-- ===== src/Metaserver/Clients/Announce.antt =====
-- wlms/client.go: AnnounceNow.
use widelands_metaserver.Base.{ℕ, ==_refl, ◌≡◌, arith}
use widelands_metaserver.Metaserver.World.{Client, Server, put_client}
use widelands_metaserver.Metaserver.Clients.{contains, announce_now}

put_client_at : (p : ℕ) (c : Client) (s : Server) → (put_client p c s).client_at p ≡ c
unfolding put_client
put_client_at p c s = rw (==_refl p)

-- After AnnounceNow a client counts as announced exactly if it is listed.
pub announce_now_result :
    (p : ℕ) (s : Server) → ((announce_now p s).client_at p).was_announced ≡ contains p s.clients
unfolding announce_now put_client
announce_now_result p s = ground arith

-- If a client counts as announced exactly if it is listed, AnnounceNow changes nothing: nobody is told a
-- second time.
pub announce_now_idle :
    (p : ℕ) (s : Server)
    → (s.client_at p).was_announced ≡ contains p s.clients
    → announce_now p s ≡ s
unfolding announce_now
announce_now_idle p s h = ground arith
