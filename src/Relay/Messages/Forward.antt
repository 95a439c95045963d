-- ===== src/Relay/Messages/Forward.antt =====
-- wlnr/game.go and client.go: a packet of a player reaches the host, one of the host the players it is for.
use mathlib.Core.Path.{fun_ext}
use mathlib.Core.List.{reverse}
use widelands_metaserver.Base.{
  ◌∙◌, ◌||◌, ◌&&◌, not, Bool-cases, inl, inr, ==_iff, ap, sym, ℕ, ◌+◌, ◌-◌, ◌*◌, ◌/◌, ◌<◌, ◌%◌,
  true, false, some, List, [], ◌∷◌, ◌++◌, map, ◌==◌, ◌≡◌, refl, ap, sym, arith, ==_refl, Bytes,
  length, All, leb, ltb, length-append, subst,
}
use widelands_metaserver.Packet.RoundTrip.{take-append, drop-append}
use widelands_metaserver.Relay.State.{
  Client, sent, Server, put_client, send_command, got, read_uint8, read_packet, consume, to_host,
  from_client, to_clients, from_host,
}
use widelands_metaserver.Relay.Games.{contains}
use widelands_metaserver.Relay.Messages.{
  forward_to_host, client_command, client_turn, read_destinations, send_to_all, forward_to_clients,
  host_command, host_turn,
}
use widelands_metaserver.Relay.Messages.Between.{Between, after_start}
use widelands_metaserver.Relay.Messages.Ids.{ids, IdsInOrder, get_client-id}
use widelands_metaserver.Relay.Messages.Sending.{sends_block, send_to_all_eq, send_to_all_hung}

-- A payload with its length, as the game sends it.
abbrev pub frame : Bytes → Bytes
frame payload = let n = length payload + 2 in (n / 256 % 256) ∷ (n % 256) ∷ payload

pub read_packet-frame :
    (payload rest : Bytes)
    → length payload + 2 < 65536
    → read_packet (frame payload ++ rest) ≡ got (frame payload) rest
unfolding read_packet
read_packet-frame payload rest short =
    let n = length payload + 2 in
    let whole : n / 256 % 256 * 256 + n % 256 ≡ n = omega arith in
    let body : n - 2 ≡ length payload = omega arith in
    let long : ltb n 2 ≡ false = ground arith in
    let there : leb (length payload) (length (payload ++ rest)) ≡ true =
      ground (arith, length-append payload rest) in
    rw (whole, long, body, there, take-append payload rest, drop-append payload rest) refl

forward_some :
    (g h c : ℕ) (pkg : Bytes) (s : Server)
    → (s.game_at g).host ≡ some h
    → forward_to_host g c pkg s ≡ send_command h (from_client ∷ (s.client_at c).id ∷ pkg) s
unfolding forward_to_host
forward_some g h c pkg s e = rw (forward_to_host, e) refl

-- What is left to read is what was set.
consume_self :
    (c : ℕ) (r : Bytes) (s : Server)
    → (consume c r s).client_at c ≡ record (s.client_at c) { reader = r }
unfolding consume put_client
consume_self c r s = rw (==_refl c) refl

consume_open :
    (c q : ℕ) (r : Bytes) (s : Server)
    → ((consume c r s).client_at q).is_open ≡ (s.client_at q).is_open
unfolding consume put_client
consume_open c q r s = elim (Bool-cases (q == c)) [
  | inl e ↦ rw e (ap (λ x. (s.client_at x).is_open) (sym ((==_iff q c).0 e)))
  | inr e ↦ rw e refl
]

-- A packet that a player sends to the host is given to the host as it is, with the id of the player
-- before it, and what the player sends after it is still to be read, if the game has a host and the packet
-- is not longer than its two bytes of length can say. The send hangs exactly if the host's connection is
-- gone and the goroutine that writes to it has ended.
pub client_turn-to_host :
    (g h c : ℕ) (payload rest : Bytes) (s : Server)
    → length payload + 2 < 65536
    → (s.game_at g).host ≡ some h
    → (s.client_at c).reader ≡ to_host ∷ (frame payload ++ rest)
    → let r = client_turn g c s in
      (r.0 ≡ true)
      × (r.1.events ≡ sent h (from_client ∷ (s.client_at c).id ∷ frame payload) ∷ s.events)
      × ((r.1.client_at c).reader ≡ rest)
      × (r.1.hung ≡ (s.hung || (not (s.client_at h).is_open && s.writer_ended h)))
unfolding client_turn client_command read_uint8
client_turn-to_host g h c payload rest s short e k =
    let s₁ = consume c (frame payload ++ rest) s in
    let s₂ = consume c rest s₁ in
    let one = consume_self c (frame payload ++ rest) s in
    let two = consume_self c rest s₁ in
    let same_host = consume_open c h rest s₁ ∙ consume_open c h (frame payload ++ rest) s in
    let host : (s₂.game_at g).host ≡ some h = unfold consume put_client in e in
    rw
      (
        client_turn,
        k,
        one,
        read_packet-frame payload rest short,
        forward_some g h c (frame payload) s₂ host,
      )
      (unfold send_command in
        (
          refl,
          unfold consume put_client in rw (==_refl c) refl,
          ap (λ (v : Client). v.reader) two,
          unfold consume put_client in ap (λ b. s.hung || (not b && s.writer_ended h)) same_host,
        ))

read_destinations-ids :
    (g : ℕ) (ds : List ℕ) (r : Bytes) (s : Server)
    → IdsInOrder g s
    → All (λ d. contains d (s.game_at g).clients ≡ true) ds
    → read_destinations s.client_at
        (s.game_at g).clients
        (map (λ d. (s.client_at d).id) ds ++ (0 ∷ r))
      ≡ got ds r
unfolding read_destinations
read_destinations-ids g [] r s b all = refl
read_destinations-ids g (d ∷ ds) r s b all =
    let first = after_start (λ q. (s.client_at q).id) d 2 (s.game_at g).clients _ b.0 all.0 in
    let not_end : ((s.client_at d).id == 0) ≡ false = ground (arith, first) in
    rw (not_end, read_destinations-ids g ds r s b all.1, get_client-id g d s b all.0) refl

-- What the relay does with a packet of the host for some players.
forward_eq :
    (g h : ℕ) (ds : List ℕ) (payload rest : Bytes) (s : Server)
    → length payload + 2 < 65536
    → IdsInOrder g s
    → All (λ d. contains d (s.game_at g).clients ≡ true) ds
    → (s.client_at h).reader ≡ map (λ d. (s.client_at d).id) ds ++ (0 ∷ (frame payload ++ rest))
    → forward_to_clients g h s
      ≡ (true, send_to_all ds (from_host ∷ frame payload) (consume h rest s))
unfolding forward_to_clients
forward_eq g h ds payload rest s short b all k =
    rw
      (
        forward_to_clients,
        k,
        read_destinations-ids g ds (frame payload ++ rest) s b all,
        read_packet-frame payload rest short,
      )
      refl

-- Reading changes no id.
ids-consume : (c : ℕ) (r : Bytes) (s : Server) → ids (consume c r s) ≡ ids s
unfolding consume put_client
ids-consume c r s = fun_ext λ q. ground arith

consume-InOrder : (g c : ℕ) (r : Bytes) (s : Server) → IdsInOrder g s → IdsInOrder g (consume c r s)
unfolding consume put_client
consume-InOrder g c r s b = (
  subst (λ f. Between f 2 (s.game_at g).clients (s.game_at g).next_client_id)
      (sym (ids-consume c r s)) b.0,
  b.1,
)

-- A packet that the host sends to some players of the game, who are named by their ids, is given as it is
-- to each of them, in the order of the ids, and to nobody else, and what the host sends after it is still
-- to be read, if the ids of the game are in order and the packet is not longer than its two bytes of
-- length can say. A send of these hangs exactly if there is a player whose connection is gone, and to whom
-- the goroutine that writes has ended or who is named twice.
pub host_turn-to_clients :
    (g h : ℕ) (ds : List ℕ) (payload rest : Bytes) (s : Server)
    → length payload + 2 < 65536
    → IdsInOrder g s
    → (s.game_at g).host ≡ some h
    → All (λ d. contains d (s.game_at g).clients ≡ true) ds
    → (s.client_at h).reader
      ≡ to_clients ∷ (map (λ d. (s.client_at d).id) ds ++ (0 ∷ (frame payload ++ rest)))
    → let r = host_turn g s in
      (r.0 ≡ true)
      × (r.1.events ≡ reverse (map (λ d. sent d (from_host ∷ frame payload)) ds) ++ s.events)
      × ((r.1.client_at h).reader ≡ rest)
      × (r.1.hung ≡ (s.hung || sends_block (λ q. (s.client_at q).is_open) s.writer_ended ds))
unfolding host_turn host_command read_uint8
host_turn-to_clients g h ds payload rest s short b e all k =
    let r = map (ids s) ds ++ (0 ∷ (frame payload ++ rest)) in
    let s₁ = consume h r s in
    let one = consume_self h r s in
    let left : (s₁.client_at h).reader ≡ map (ids s₁) ds ++ (0 ∷ (frame payload ++ rest)) =
      rw (one, ids-consume h r s) refl in
    let two = consume_self h rest s₁ in
    let given =
      forward_eq g h ds payload rest s₁ short (consume-InOrder g h r s b)
        (unfold consume put_client in all) left in
    let same_open = fun_ext λ q. consume_open h q rest s₁ ∙ consume_open h q r s in
    let all_sent = send_to_all_eq ds (from_host ∷ frame payload) (consume h rest s₁) in
    rw (host_turn, e, k, given)
      (
        refl,
        all_sent.0 ∙ unfold consume put_client in refl,
        ap (λ f. (f h).reader) all_sent.1 ∙ ap (λ (v : Client). v.reader) two,
        send_to_all_hung ds (from_host ∷ frame payload) (consume h rest s₁)
            ∙ unfold consume put_client in
              ap (λ f. s.hung || sends_block f s.writer_ended ds) same_open,
      )
