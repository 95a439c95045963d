-- ===== src/Metaserver/Run/Cleanup.antt =====
-- wlms/server.go: the cleanup of the main loop.
use widelands_metaserver.Base.{
  ℕ, ◌-◌, false, none, some, Option, List, [], ◌∷◌, ltb, if◌then◌else◌, ◌≡◌, refl, ◌∙◌, sym, arith,
  Bool-cases, inl, inr,
}
use widelands_metaserver.Metaserver.World.{Game, Server}
use widelands_metaserver.Metaserver.Clients.{contains, remove_first, games_update}
use widelands_metaserver.Metaserver.Clients.Frame.{
  Keeps, Keeps-refl, Keeps-trans, Keeps-if, broadcast-Keeps, send_packet-Keeps, disconnect-Keeps,
}
use widelands_metaserver.Metaserver.Games.{remove_game}
use widelands_metaserver.Metaserver.Run.{max_online_time, cleanup_games, cleanup_clients, cleanup}

-- The first game of a list without activity since a time.
unfoldable pub first_stale : (ℕ → Game) → ℕ → List ℕ → Option ℕ
first_stale at before [] = none
first_stale at before (g ∷ gs) =
    if ltb (at g).time_last_activity before then some g else first_stale at before gs

abbrev pub without : Option ℕ → List ℕ → List ℕ
without none gs = gs
without (some g) gs = remove_first g gs

remove_first-absent : (g : ℕ) (gs : List ℕ) → contains g gs ≡ false → remove_first g gs ≡ gs
unfolding contains remove_first
remove_first-absent g [] h = refl
remove_first-absent g (x ∷ xs) h = ground (arith, remove_first-absent g xs)

remove_game_games : (g : ℕ) (s : Server) → (remove_game g s).games ≡ remove_first g s.games
unfolding remove_game
remove_game_games g s = elim (Bool-cases (contains g s.games)) [
  | inl e ↦ rw e (broadcast-Keeps games_update _).games
  | inr e ↦ rw e (sym (remove_first-absent g s.games e))
]

cleanup_games_games :
    (before : ℕ) (gs : List ℕ) (s : Server)
    → (cleanup_games before gs s).games ≡ without (first_stale s.game_at before gs) s.games
unfolding cleanup_games first_stale
cleanup_games_games before [] s = refl
cleanup_games_games before (g ∷ gs) s =
    elim (Bool-cases (ltb (s.game_at g).time_last_activity before)) [
      | inl e ↦ rw e (remove_game_games g s)
      | inr e ↦ rw e (cleanup_games_games before gs s)
    ]

cleanup_clients-Keeps :
    (before : ℕ) (ps : List ℕ) (s : Server) → Keeps s (cleanup_clients before ps s)
unfolding cleanup_clients
cleanup_clients-Keeps before [] s = Keeps-refl s
cleanup_clients-Keeps before (p ∷ ps) s =
    Keeps-trans
      (Keeps-if _ (Keeps-trans (send_packet-Keeps p _ s) (disconnect-Keeps p _)) (Keeps-refl s))
      (cleanup_clients-Keeps before ps _)

-- A tick of the cleanup takes one game off the list at most, also when several games had no activity
-- for seven days: the first of these. If there is none, the list of games stays as it is.
pub cleanup_removes_one :
    (s : Server)
    → (cleanup s).games ≡ without (first_stale s.game_at (s.now - max_online_time) s.games) s.games
unfolding cleanup
cleanup_removes_one s =
    (cleanup_clients-Keeps _ _ _).games ∙ cleanup_games_games (s.now - max_online_time) s.games s
