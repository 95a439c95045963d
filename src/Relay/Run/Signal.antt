-- ===== src/Relay/Run/Signal.antt =====
-- wlnr/server.go: the end of the relay on a signal.
use widelands_metaserver.Base.{
  ℕ, zero, suc, ◌+◌, true, false, some, List, [], ◌∷◌, ◌==◌, ◌≡◌, refl, sym, ap, ◌∙◌, subst, arith,
  Bool-cases, Option-cases, List-cases, inl, inr, ==_refl, length, Bytes,
}
use widelands_metaserver.Relay.State.{Client, Game, Server}
use widelands_metaserver.Relay.Games.{contains, is_host, remove_first, shutdown}
use widelands_metaserver.Relay.Games.Names.{names}
use widelands_metaserver.Relay.Games.Removal.{contains-remove_first}
use widelands_metaserver.Relay.Games.Telling.{too_many, shutdown_blocks}
use widelands_metaserver.Relay.Games.Hanging.{shutdown_ends}
use widelands_metaserver.Relay.Run.Frame.{closings}
use widelands_metaserver.Relay.Run.Counts.{named, created}
use widelands_metaserver.Relay.Run.Calm.{absent-remove_first}
use widelands_metaserver.Relay.Run.Fine.{LobbyFine}
use widelands_metaserver.Relay.Run.Closing.{shutdown-Fine}
use widelands_metaserver.Relay.Run.Beside.{Beside-shutdown}
use widelands_metaserver.Relay.Run.{
  shutdown_games, shutdown_server, Input, shut_down, react, step, run, new_server,
}
use widelands_metaserver.Relay.Run.Games.{
  first_goes, all_go, shutdown_games-Fine, step_on, relay_games_fine,
}

-- The hosts of the listed games are connected, and none is in two of the games or a player of one.
pub record HostsConnected (s : Server) : Type 0 where
  pub up :
      (g h : ℕ)
      → contains g s.games ≡ true
      → (s.game_at g).host ≡ some h
      → (s.client_at h).is_open ≡ true
  pub apart :
      (g q h : ℕ)
      → contains g s.games ≡ true
      → contains q s.games ≡ true
      → (s.game_at g).host ≡ some h
      → contains h (s.game_at q).clients ≡ false
  pub one :
      (g q h : ℕ)
      → contains g s.games ≡ true
      → contains q s.games ≡ true
      → (s.game_at g).host ≡ some h
      → (g == q) ≡ false
      → is_host (s.game_at q) h ≡ false

-- A game that is still listed was listed, and is not the removed one.
still_listed :
    (x g : ℕ) (s : Server)
    → LobbyFine s
    → contains x (remove_first g s.games) ≡ true
    → (contains x s.games ≡ true) × ((x == g) ≡ false)
still_listed x g s w k = (was, other)
  where
    was : contains x s.games ≡ true
    was = elim (Bool-cases (contains x s.games)) [
      | inl e ↦ e
      | inr e ↦ cc (absent-remove_first x g s.games e, k)
    ]

    other : (x == g) ≡ false
    other = elim (Bool-cases (x == g)) [
      | inr e ↦ e
      | inl e ↦
          let same : x ≡ g = ground arith in
          let gone = contains-remove_first (names s) g s.games w.distinct in
          cc (subst (λ q. contains q (remove_first g s.games) ≡ true) same k, gone)
    ]

takes_all :
    (g : ℕ) (s : Server)
    → contains g s.games ≡ true
    → HostsConnected s
    → shutdown_blocks g s ≡ false
unfolding shutdown_blocks too_many
takes_all g s l c = elim (Option-cases (s.game_at g).host) [
  | inl e ↦ rw (e, shutdown_blocks) refl
  | inr (h, e) ↦ rw (e, shutdown_blocks, c.up g h l e) refl
]

module _ (g : ℕ) (gs : List ℕ) (s : Server) (w : LobbyFine s) (e : s.games ≡ g ∷ gs) where
  first_listed : contains g s.games ≡ true
  unfolding contains
  first_listed = rw (e, ==_refl g) refl

  first_running : (s.game_at g).currently_shutting_down ≡ false
  first_running = (rw e at w.running).0

  left : contains g s.games ≡ true → (shutdown g s).games ≡ remove_first g s.games
  unfolding remove_first
  left l = first_goes g gs s w e ∙ rw (e, ==_refl g) refl

  -- The hosts of the other games stay connected.
  HostsConnected-shutdown : HostsConnected s → HostsConnected (shutdown g s)
  HostsConnected-shutdown c =
      let t = shutdown g s in
      let k = Beside-shutdown g s first_running in
      let was = λ (x : ℕ) (l : contains x t.games ≡ true).
        still_listed x g s w (subst (λ ys. contains x ys ≡ true) (left first_listed) l) in
      let host = λ (x : ℕ) (h : ℕ) (ne : (x == g) ≡ false) (f : (t.game_at x).host ≡ some h).
        ap (λ (v : Game). v.host) (sym (k.others x ne)) ∙ f in
      record {
        up = λ x h l f.
            let (l', ne) = was x l in
            let f' = host x h ne f in
            k.opened h (c.one x g h l' first_listed f' ne) (c.apart x g h l' first_listed f')
            ∙ c.up x h l' f';
        apart = λ x q h l m f.
            let (l', ne) = was x l in
            let (m', ne') = was q m in
            ap (λ (v : Game). contains h v.clients) (k.others q ne')
            ∙ c.apart x q h l' m' (host x h ne f);
        one = λ x q h l m f d.
            let (l', ne) = was x l in
            let (m', ne') = was q m in
            ap (λ v. is_host v h) (k.others q ne') ∙ c.one x q h l' m' (host x h ne f) d;
      }

games_return :
    (f : ℕ) (s : Server)
    → LobbyFine s
    → HostsConnected s
    → s.hung ≡ false
    → (shutdown_games f s).hung ≡ false
unfolding shutdown_games
games_return zero s w c free = free
games_return (suc f) s w c free = elim (List-cases s.games) [
  | inl e ↦ rw (e, shutdown_games) free
  | inr (g, gs, e) ↦
      let l = first_listed g gs s w e in
      let ended =
        shutdown_ends g s (first_running g gs s w e) (λ h k. c.apart g g h l l k) free
          (takes_all g s l c) in
      rw (e, shutdown_games)
        (games_return f (shutdown g s) (shutdown-Fine g s w) (HostsConnected-shutdown g gs s w e c)
          ended.0)
]

-- The relay has ended, no game is listed, and the metaserver was told of the end of each.
abbrev pub Ended : Server → Type 0
Ended t =
    (t.hung ≡ false)
    × (t.has_shutdown ≡ true)
    × (t.games ≡ [])
    × ((n : Bytes) → closings n t.events ≡ created n (names t) t.next_game)

all_told :
    (n : Bytes) (t : Server)
    → t.games ≡ []
    → closings n t.events + named n (names t) t.games ≡ created n (names t) t.next_game
    → closings n t.events ≡ created n (names t) t.next_game
unfolding named
all_told n t gone h =
    let none_left : named n (names t) t.games ≡ 0 = rw gone refl in omega (arith, h, none_left)

shuts_down :
    (s : Server) → LobbyFine s → HostsConnected s → s.hung ≡ false → Ended (shutdown_server s)
unfolding shutdown_server
shuts_down s w c free =
    let t = shutdown_games (length s.games) s in
    let gone = all_go (length s.games) s w (omega arith) in
    let returns = games_return (length s.games) s w c free in
    let told = (shutdown_games-Fine (length s.games) s w).told in
    rw (returns, gone) (returns, refl, gone, λ n. all_told n t gone (told n))

-- Whatever came before, if the relay has not crashed, hung or ended, and the hosts of the listed games are
-- connected, each the host of only one of these games and a player of none, a signal makes it end: no send
-- hangs, and the loop of the main loop, which shuts down the first listed game until none is listed, makes one round for each game and no
-- more. In the end no game is listed, and GameClosed was called with each name as often as a game was created
-- with it.
pub relay_shuts_down :
    (is : List Input) (blank_client : Client) (blank_game : Game)
    → (run is (new_server blank_client blank_game)).crashed ≡ false
    → (run is (new_server blank_client blank_game)).hung ≡ false
    → (run is (new_server blank_client blank_game)).has_shutdown ≡ false
    → HostsConnected (run is (new_server blank_client blank_game))
    → Ended (step shut_down (run is (new_server blank_client blank_game)))
unfolding react
relay_shuts_down is c g up free on hosts =
    let s = run is (new_server c g) in
    subst Ended (sym (step_on shut_down s up free on))
      (shuts_down s (relay_games_fine is c g) hosts free)
