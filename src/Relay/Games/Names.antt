-- ===== src/Relay/Games/Names.antt =====
-- wlnr/server.go and game.go: the names of the games of the relay.
use widelands_metaserver.Base.{
  ℕ, suc, ◌<◌, true, false, not, none, some, List, [], ◌∷◌, ◌++◌, ◌==◌, if◌then◌else◌, is_some,
  Bytes, bytes_eq, ◌≡◌, refl, sym, ap, ◌∙◌, arith, Option-cases, inl, inr, ==_refl, All, All-append,
  find_key, Distinct, Distinct-push, Distinct-same, find_key-last, find_key-same, All-below,
}
use widelands_metaserver.Relay.State.{Game, Server, put_game}
use widelands_metaserver.Relay.Games.{new_game, find_game, create_game}

abbrev pub names : Server → ℕ → Bytes
names s g = (s.game_at g).game_name

-- The names of the games are different, and the next game is none of them.
pub record GamesFine (s : Server) : Type 0 where
  pub distinct : Distinct (names s) s.games
  pub fresh : All (λ g. g < s.next_game) s.games

pub find_game_eq :
    (at : ℕ → Game) (n : Bytes) (gs : List ℕ)
    → find_game at n gs ≡ find_key (λ g. (at g).game_name) n gs
unfolding find_game find_key
find_game_eq at n [] = refl
find_game_eq at n (g ∷ gs) =
    ap (λ o. if bytes_eq (at g).game_name n then some g else o) (find_game_eq at n gs)

pub other_games :
    (name password : Bytes) (s : Server) (g : ℕ)
    → g < s.next_game
    → names (new_game name password s).1 g ≡ names s g
unfolding new_game put_game
other_games name password s g l =
    let ne : (g == s.next_game) ≡ false = ground arith in rw (names, ne) refl

-- CreateGame keeps the names of the games different, and the pointers on the list below the next one. It
-- succeeds exactly if no game has the name, and after it a game is found under the name in any case.
pub create_game-GamesFine :
    (name password : Bytes) (s : Server)
    → GamesFine s
    → let r = create_game name password s in
      GamesFine r.1
      × (r.0 ≡ not (is_some (find_game s.game_at name s.games)))
      × (is_some (find_game r.1.game_at name r.1.games) ≡ true)
unfolding create_game new_game put_game
create_game-GamesFine name password s w =
    let k = s.next_game in
    let t = (new_game name password s).1 in
    let mine : names t k ≡ name = rw (names, ==_refl k) refl in
    let others : (g : ℕ) → g < k → names t g ≡ names s g = other_games name password s in
    elim (Option-cases (find_game s.game_at name s.games)) [
      | inr (g, e) ↦ rw e (w, refl, rw e refl)
      | inl e ↦
          let free : find_key (names t) name s.games ≡ none =
            find_key-same (names s) (names t) k name s.games w.fresh others
            ∙ sym (find_game_eq s.game_at name s.games)
            ∙ e in
          rw e (
            record {
              distinct =
                  Distinct-push (names t) s.games k
                    (Distinct-same (names s) (names t) k s.games w.fresh others w.distinct)
                    (ap (λ n. find_key (names t) n s.games) mine ∙ free);
              fresh =
                  All-append (λ g. g < suc k) s.games (k ∷ []) (All-below k s.games w.fresh)
                    (omega arith, tt);
            },
            refl,
            ap is_some (
                find_game_eq t.game_at name (s.games ++ (k ∷ []))
                ∙ find_key-last (names t) name s.games k free mine),
          )
    ]
