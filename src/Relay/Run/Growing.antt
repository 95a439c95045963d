-- ===== src/Relay/Run/Growing.antt =====
-- wlnr/server.go: a new connection and a new game change nothing for the players that are there.
use widelands_metaserver.Base.{
  ℕ, suc, ◌<◌, Bool, false, List, [], ◌∷◌, ◌==◌, ◌≡◌, refl, All, arith, Bool-cases, inl, inr,
  if_cases, is_some, Bytes,
}
use widelands_metaserver.Relay.State.{
  Task, new_connection, ping_loop, host_messages, client_messages, Server, put_client, put_game,
}
use widelands_metaserver.Relay.Games.{id_host, contains, new_game, find_game, create_game}
use widelands_metaserver.Relay.Messages.Between.{Between-same}
use widelands_metaserver.Relay.Messages.Ids.{ids, IdsInOrder}
use widelands_metaserver.Relay.Run.Calm.{Calm-games}
use widelands_metaserver.Relay.Run.Players.{
  Apart, Waits, Other, PlayersFine, Calm-PlayersFine, All-each,
}
use widelands_metaserver.Relay.Run.{new_client, accept}

pub accept-PlayersFine :
    (stream : Bytes) (s : Server) → PlayersFine s → PlayersFine (accept stream s)
unfolding accept put_client
accept-PlayersFine stream s w =
    let c = s.next_client in
    let newcomer = new_client stream s in
    let free : Apart c s = w.unborn c (omega arith) in
    record {
      ordered = λ g l.
          let b = w.ordered g l in
          (
            Between-same (ids s) (ids (accept stream s)) c 2 _ _ (free g l)
                (λ q ne. rw (ids, ne) refl) b.0,
            b.1,
          );
      unborn = λ d l. w.unborn d (omega (arith, l));
      waiting = ((omega arith, free), (tt, waits_more s.tasks w.waiting));
      once = ((tt, fresh s.tasks w.waiting), (tt, w.once));
    }
  where
    waits_more : (ts : List Task) → All (Waits s) ts → All (Waits (accept stream s)) ts
    waits_more [] h = tt
    waits_more (new_connection d ∷ ts) h =
        let young = h.0.0 in ((omega (arith, young), h.0.1), waits_more ts h.1)
    waits_more (ping_loop d ∷ ts) h = (tt, waits_more ts h.1)
    waits_more (host_messages g ∷ ts) h = (tt, waits_more ts h.1)
    waits_more (client_messages g d ∷ ts) h = (tt, waits_more ts h.1)

    fresh : (ts : List Task) → All (Waits s) ts → All (Other s.next_client) ts
    fresh [] h = tt
    fresh (new_connection d ∷ ts) h = let young = h.0.0 in (ground (arith, young), fresh ts h.1)
    fresh (ping_loop d ∷ ts) h = (tt, fresh ts h.1)
    fresh (host_messages g ∷ ts) h = (tt, fresh ts h.1)
    fresh (client_messages g d ∷ ts) h = (tt, fresh ts h.1)

below : (g k : ℕ) → (g == k) ≡ false → g < suc k → g < k
below g k e l = ground arith

Apart-new_game :
    (name password : Bytes) (c : ℕ) (s : Server) → Apart c s → Apart c (new_game name password s).1
unfolding contains new_game put_game
Apart-new_game name password c s h g l = elim (Bool-cases (g == s.next_game)) [
  | inl e ↦ rw e refl
  | inr e ↦ rw e (h g (below g s.next_game e l))
]

Waits-new_game :
    (name password : Bytes) (s : Server) (t : Task)
    → Waits s t
    → Waits (new_game name password s).1 t
unfolding new_game put_game
Waits-new_game name password s (new_connection c) h = (h.0, Apart-new_game name password c s h.1)
Waits-new_game name password s (ping_loop c) h = tt
Waits-new_game name password s (host_messages g) h = tt
Waits-new_game name password s (client_messages g c) h = tt

IdsInOrder-new_game :
    (name password : Bytes) (s : Server) (g : ℕ)
    → ((g == s.next_game) ≡ false → IdsInOrder g s)
    → IdsInOrder g (new_game name password s).1
unfolding id_host new_game put_game
IdsInOrder-new_game name password s g h = elim (Bool-cases (g == s.next_game)) [
  | inl e ↦ rw e (omega arith, omega arith)
  | inr e ↦ rw e (h e)
]

new_game-PlayersFine :
    (name password : Bytes) (s : Server) → PlayersFine s → PlayersFine (new_game name password s).1
unfolding new_game put_game
new_game-PlayersFine name password s w = record {
  ordered = λ g l. IdsInOrder-new_game name password s g λ e. w.ordered g (below g s.next_game e l);
  unborn = λ c l. Apart-new_game name password c s (w.unborn c l);
  waiting = All-each (Waits s) _ s.tasks (Waits-new_game name password s) w.waiting;
  once = w.once;
}

pub create_game-PlayersFine :
    (name password : Bytes) (s : Server)
    → PlayersFine s
    → PlayersFine (create_game name password s).1
unfolding create_game
create_game-PlayersFine name password s w =
    let r = new_game name password s in
    if_cases (λ (x : Bool × Server). PlayersFine x.1) (is_some (find_game s.game_at name s.games))
      (λ _. w)
      (λ _.
        Calm-PlayersFine r.1 _ (Calm-games r.1 _ refl refl refl refl refl)
          (new_game-PlayersFine name password s w))
