-- ===== src/Relay/Run/Fine.antt =====
-- wlnr/server.go: the list of games of the relay, and what a game that is taken off it leaves.
use mathlib.Core.Path.{fun_ext}
use widelands_metaserver.Relay.Run.Counts.{named, created, one_if, named-remove_first}
use widelands_metaserver.Base.{
  ℕ, ◌+◌, ◌<◌, false, List, [], ◌∷◌, ◌==◌, ◌≡◌, ◌∙◌, sym, subst, arith, Bool-cases, inl, inr,
  if◌then◌else◌, All, Distinct, Distinct-same, Bytes,
}
use widelands_metaserver.Relay.State.{Server}
use widelands_metaserver.Relay.Games.{contains, remove_first}
use widelands_metaserver.Relay.Games.Shutdown.{remove_first-absent}
use widelands_metaserver.Relay.Games.Names.{names}
use widelands_metaserver.Relay.Games.Removal.{
  All-remove_first, Distinct-remove_first, contains-remove_first, All-skip,
}
use widelands_metaserver.Relay.Run.Frame.{closings, Same}

-- The games that are listed have different names, none is shutting down, their pointers are below the next
-- one, and for each name the ends of games of which the metaserver was told and the listed games are
-- together as many as the games that were created.
pub record LobbyFine (s : Server) : Type 0 where
  pub distinct : Distinct (names s) s.games
  pub fresh : All (λ g. g < s.next_game) s.games
  pub running : All (λ g. (s.game_at g).currently_shutting_down ≡ false) s.games
  pub told :
      (n : Bytes)
      → closings n s.events + named n (names s) s.games ≡ created n (names s) s.next_game

same_running :
    (s t : Server) (gs : List ℕ)
    → ((g : ℕ) → (t.game_at g).currently_shutting_down ≡ (s.game_at g).currently_shutting_down)
    → All (λ g. (s.game_at g).currently_shutting_down ≡ false) gs
    → All (λ g. (t.game_at g).currently_shutting_down ≡ false) gs
same_running s t [] h a = tt
same_running s t (g ∷ gs) h a = (h g ∙ a.0, same_running s t gs h a.1)

pub Same-Fine : (s t : Server) → Same s t → LobbyFine s → LobbyFine t
Same-Fine s t k w = record {
  distinct =
      subst (Distinct (names t)) (sym k.games) (
        Distinct-same (names s) (names t) s.next_game s.games w.fresh (λ g _. k.name g) w.distinct);
  fresh =
      subst (λ n. All (λ g. g < n) t.games) (sym k.next_game)
        (subst (All (λ g. g < s.next_game)) (sym k.games) w.fresh);
  running =
      subst (All (λ g. (t.game_at g).currently_shutting_down ≡ false)) (sym k.games)
        (same_running s t s.games k.shutting w.running);
  told = λ n.
      rw (k.closings n, k.games, k.next_game)
        (subst (λ f. closings n s.events + named n f s.games ≡ created n f s.next_game)
          (sym (fun_ext k.name)) (w.told n));
}

-- A game is taken off the list, if it is there, and the metaserver is told.
pub record Closed (g : ℕ) (s t : Server) : Type 0 where
  pub games : t.games ≡ remove_first g s.games
  pub next_game : t.next_game ≡ s.next_game
  pub closings :
      (n : Bytes)
      → closings n t.events ≡ (
          if contains g s.games
          then one_if (names s g) n + closings n s.events
          else closings n s.events)
  pub name : (q : ℕ) → (t.game_at q).game_name ≡ (s.game_at q).game_name
  pub shutting :
      (q : ℕ)
      → (q == g) ≡ false
      → (t.game_at q).currently_shutting_down ≡ (s.game_at q).currently_shutting_down

told_after :
    (n : Bytes) (key : ℕ → Bytes) (g m k : ℕ) (gs : List ℕ)
    → m + named n key gs ≡ k
    → (if contains g gs then one_if (key g) n + m else m) + named n key (remove_first g gs) ≡ k
told_after n key g m k gs h = elim (Bool-cases (contains g gs)) [
  | inl e ↦ rw e (omega (arith, named-remove_first n key g gs e))
  | inr e ↦ rw (e, remove_first-absent g gs e) h
]

pub Closed-Fine : (g : ℕ) (s t : Server) → Closed g s t → LobbyFine s → LobbyFine t
Closed-Fine g s t k w =
    let rest = remove_first g s.games in
    let fresh = All-remove_first (λ q. q < s.next_game) g s.games w.fresh in
    record {
      distinct = subst (Distinct (names t)) (sym k.games) (
          Distinct-same (names s) (names t) s.next_game rest fresh (λ q _. k.name q)
            (Distinct-remove_first (names s) g s.games w.distinct));
      fresh =
          subst (λ n. All (λ q. q < n) t.games) (sym k.next_game)
            (subst (All (λ q. q < s.next_game)) (sym k.games) fresh);
      running = subst (All (λ q. (t.game_at q).currently_shutting_down ≡ false)) (sym k.games) (
          All-skip (λ q. (s.game_at q).currently_shutting_down ≡ false) _ g rest
            (contains-remove_first (names s) g s.games w.distinct) (λ q ne a. k.shutting q ne ∙ a)
            (All-remove_first _ g s.games w.running));
      told = λ n.
          let before =
            told_after n (names s) g (closings n s.events) (created n (names s) s.next_game) s.games
              (w.told n) in
          rw (k.closings n, k.games, k.next_game)
            (subst
              (λ f.
                (if contains g s.games
                    then one_if (names s g) n + closings n s.events
                    else closings n s.events)
                  + named n f rest
                ≡ created n f s.next_game)
              (sym (fun_ext k.name)) before);
    }
