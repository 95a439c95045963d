-- ===== src/Metaserver/Clients/Broadcast.antt =====
-- Whom SendPacket and BroadcastToConnectedClients of wlms reach, and what else they change.
use mathlib.Core.List.{reverse, reverse-cons}
use widelands_metaserver.Base.{
  ℕ, Bool, true, ◌&&◌, List, [], ◌∷◌, ◌++◌, map, append_assoc, if◌then◌else◌, is_some, Bool-cases,
  inl, inr, ◌≡◌, refl, sym, ap, ◌∙◌, arith,
}
use widelands_metaserver.Packet.{Field, new, encodable}
use widelands_metaserver.Metaserver.World.{is_connected, Client, Event, sent, Server}
use widelands_metaserver.Metaserver.Clients.{
  send_packet, broadcast_loop, broadcast_to_connected_clients,
}

abbrev pub has_conn : Client → Bool
has_conn c = is_some c.conn

-- The packet is recorded for a client with a connection, and for no other.
abbrev pub sent_event : (ℕ → Client) → ℕ → List Field → List Event → List Event
sent_event at p d ev = if has_conn (at p) then sent p d ∷ ev else ev

pub send_packet_eq :
    (p : ℕ) (d : List Field) (s : Server)
    → encodable d ≡ true
    → send_packet p d s ≡ record s { events = sent_event s.client_at p d s.events }
unfolding send_packet new
send_packet_eq p d s h = ground arith

-- The clients of a list that are connected and have a connection.
unfoldable pub receivers : (ℕ → Client) → List ℕ → List ℕ
receivers at [] = []
receivers at (p ∷ ps) =
    if is_connected (at p).state && has_conn (at p) then p ∷ receivers at ps else receivers at ps

abbrev pub sent_all : List ℕ → List Field → List Event
sent_all ps d = reverse (map (λ p. sent p d) ps)

sent_all-cons :
    (p : ℕ) (ps : List ℕ) (d : List Field) (ev : List Event)
    → sent_all (p ∷ ps) d ++ ev ≡ sent_all ps d ++ (sent p d ∷ ev)
sent_all-cons p ps d ev = rw (reverse-cons (sent p d) (map (λ p. sent p d) ps), append_assoc)

broadcast_loop_eq :
    (ps : List ℕ) (d : List Field) (s : Server)
    → encodable d ≡ true
    → broadcast_loop ps d s
      ≡ record s { events = sent_all (receivers s.client_at ps) d ++ s.events }
unfolding broadcast_loop receivers
broadcast_loop_eq [] d s h = refl
broadcast_loop_eq (p ∷ ps) d s h = elim (Bool-cases (is_connected (s.client_at p).state)) [
  | inr off ↦ rw off (broadcast_loop_eq ps d s h)
  | inl on ↦
      rw (on, send_packet_eq p d s h)
        (elim (Bool-cases (has_conn (s.client_at p))) [
          | inl c ↦ rw c (
              broadcast_loop_eq ps d (record s { events = sent p d ∷ s.events }) h
              ∙ ap (λ ev. record s { events = ev })
                  (sym (sent_all-cons p (receivers s.client_at ps) d s.events)))
          | inr c ↦ rw c (broadcast_loop_eq ps d s h)
        ])
]

-- A broadcast of a packet that can be encoded sends it once to each listed client, in the list's order,
-- that is connected and has a connection, and to nobody else; nothing else changes.
pub broadcast_eq :
    (d : List Field) (s : Server)
    → encodable d ≡ true
    → broadcast_to_connected_clients d s
      ≡ record s { events = sent_all (receivers s.client_at s.clients) d ++ s.events }
unfolding broadcast_to_connected_clients
broadcast_eq d s h = broadcast_loop_eq s.clients d s h
