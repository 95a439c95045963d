-- ===== src/Relay/Messages/Sending.antt =====
-- wlnr/game.go: the loop that sends a packet of the host to the players.

use mathlib.Core.List.{reverse, reverse-cons}
use widelands_metaserver.Base.{
  if◌then◌else◌, Bool, ◌∙◌, ◌||◌, ◌&&◌, not, Bool-cases, inl, inr, ==_iff, ap, sym, ℕ, true, false,
  List, [], ◌∷◌, ◌++◌, append_assoc, map, ◌==◌, ◌≡◌, refl, ap, sym, arith, Bytes, subst,
}
use widelands_metaserver.Relay.State.{sent, Server, send_command}
use widelands_metaserver.Relay.Games.{contains}
use widelands_metaserver.Relay.Messages.{send_to_all}

-- Some client of the list whose connection is gone has no goroutine that writes any more, or stands again
-- further on.
unfoldable pub sends_block : (ℕ → Bool) → (ℕ → Bool) → List ℕ → Bool
sends_block is_open ended [] = false
sends_block is_open ended (d ∷ ds) =
    (not (is_open d) && (ended d || contains d ds)) || sends_block is_open ended ds

-- The goroutine of a client whose connection is gone ends with a send.
ended_after : (ℕ → Bool) → (ℕ → Bool) → ℕ → ℕ → Bool
ended_after is_open ended d q = if q == d && not (is_open d) then true else ended q

sends_block-after :
    (is_open ended : ℕ → Bool) (d : ℕ) (ds : List ℕ)
    → sends_block is_open (ended_after is_open ended d) ds
      ≡ ((not (is_open d) && contains d ds) || sends_block is_open ended ds)
unfolding sends_block ended_after contains
sends_block-after is_open ended d [] = ground arith
sends_block-after is_open ended d (x ∷ xs) = elim (Bool-cases (x == d)) [
  | inr e ↦ rw (e, sends_block-after is_open ended d xs) (ground arith)
  | inl e ↦
      rw (e, sends_block-after is_open ended d xs)
        (subst
          (λ y.
            ((not (is_open y) && ((if not (is_open d) then true else ended y) || contains y xs))
              || ((not (is_open d) && contains d xs) || sends_block is_open ended xs))
            ≡ ((not (is_open d) && true)
                || ((not (is_open y) && (ended y || contains y xs))
                    || sends_block is_open ended xs)))
          (sym ((==_iff x d).0 e)) (ground arith))
]

pub send_to_all_hung :
    (ds : List ℕ) (cmd : Bytes) (s : Server)
    → (send_to_all ds cmd s).hung
      ≡ (s.hung || sends_block (λ q. (s.client_at q).is_open) s.writer_ended ds)
unfolding send_to_all send_command sends_block ended_after
send_to_all_hung [] cmd s = ground arith
send_to_all_hung (d ∷ ds) cmd s =
    let up = λ (q : ℕ). (s.client_at q).is_open in
    send_to_all_hung ds cmd (send_command d cmd s)
    ∙ ap (λ b. (s.hung || (not (up d) && s.writer_ended d)) || b)
        (sends_block-after up s.writer_ended d ds)
    ∙ ground arith

pub send_to_all_eq :
    (ds : List ℕ) (cmd : Bytes) (s : Server)
    → ((send_to_all ds cmd s).events ≡ reverse (map (λ d. sent d cmd) ds) ++ s.events)
      × ((send_to_all ds cmd s).client_at ≡ s.client_at)
unfolding send_to_all send_command
send_to_all_eq [] cmd s = (refl, refl)
send_to_all_eq (d ∷ ds) cmd s =
    let rest = send_to_all_eq ds cmd (send_command d cmd s) in
    (rw (reverse-cons (sent d cmd) (map (λ d. sent d cmd) ds), append_assoc) rest.0, rest.1)
