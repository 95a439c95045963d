-- ===== src/Relay/Run/Closing.antt =====
-- wlnr/server.go and game.go: a game that ends leaves the others as they are, and the metaserver hears of it.

use widelands_metaserver.Relay.Run.Counts.{one_if}
use widelands_metaserver.Base.{
  eq_of_bytes_eq, bytes_eq, ℕ, suc, ◌+◌, true, false, none, some, List, [], ◌∷◌, ◌==◌, ◌≡◌, refl,
  ◌∙◌, sym, ap, arith, Bool-cases, Option-cases, inl, inr, ==_iff, ==_refl, if_cases, if◌then◌else◌,
  length, Bytes,
}
use widelands_metaserver.Relay.State.{Game, game_closed, Server, put_game, disconnect}
use widelands_metaserver.Relay.Games.{
  contains, remove_first, remove_game_object, shutdown_loop, disconnect_host, shutdown,
  disconnect_client, is_host, find_game, find_hostless, remove_game_if_no_host_is_connected,
  remove_game,
}
use widelands_metaserver.Relay.Games.Shutdown.{remove_first-absent}
use widelands_metaserver.Relay.Games.Names.{names}
use widelands_metaserver.Relay.Run.Frame.{
  closings, Same, Same-trans, Same-put_game, Same-disconnect, Same-drop_client, Same-shutdown_loop,
  Same-disconnect_host,
}
use widelands_metaserver.Relay.Run.Fine.{LobbyFine, Same-Fine, Closed, Closed-Fine}

-- The games that are on the list go, the others stay off it.
Closed-listed :
    (g : ℕ) (n : Bytes) (s : Server)
    → contains g s.games ≡ true
    → n ≡ names s g
    → Closed g s (record s { games = remove_first g s.games; events = game_closed n ∷ s.events })
unfolding closings
Closed-listed g n s e named_so = record {
  games = refl;
  next_game = refl;
  closings = λ m. rw (e, named_so) (ground arith);
  name = λ _. refl;
  shutting = λ _ _. refl;
}

Closed-unlisted : (g : ℕ) (s : Server) → contains g s.games ≡ false → Closed g s s
Closed-unlisted g s e = record {
  games = sym (remove_first-absent g s.games e);
  next_game = refl;
  closings = λ n. rw e refl;
  name = λ _. refl;
  shutting = λ _ _. refl;
}

Closed-remove_game_object : (g : ℕ) (s : Server) → Closed g s (remove_game_object g s)
unfolding remove_game_object
Closed-remove_game_object g s =
    if_cases (Closed g s) (contains g s.games) (λ e. Closed-listed g _ s e refl)
      (Closed-unlisted g s)

Same-Closed : (g : ℕ) (s t u : Server) → Same s t → Closed g t u → Closed g s u
Same-Closed g s t u a b = record {
  games = b.games ∙ ap (remove_first g) a.games;
  next_game = b.next_game ∙ a.next_game;
  closings = λ n. b.closings n ∙ rw (a.games, a.closings n, a.name g) refl;
  name = λ q. b.name q ∙ a.name q;
  shutting = λ q ne. b.shutting q ne ∙ a.shutting q;
}

-- The mark that a game gets.
mark : ℕ → Server → Server
mark g s = put_game g (record (s.game_at g) { currently_shutting_down = true }) s

marked_name : (g q : ℕ) (s : Server) → names (mark g s) q ≡ names s q
unfolding mark put_game
marked_name g q s = elim (Bool-cases (q == g)) [
  | inl e ↦ rw (names, e) (ap (λ x. (s.game_at x).game_name) (sym ((==_iff q g).0 e)))
  | inr e ↦ rw (names, e) refl
]

marked_other :
    (g q : ℕ) (s : Server)
    → (q == g) ≡ false
    → ((mark g s).game_at q).currently_shutting_down ≡ (s.game_at q).currently_shutting_down
unfolding mark put_game
marked_other g q s e = rw e refl

marked_Closed : (g : ℕ) (s t : Server) → Closed g (mark g s) t → Closed g s t
unfolding mark put_game
marked_Closed g s t k = record {
  games = k.games;
  next_game = k.next_game;
  closings = λ n.
      k.closings n
      ∙ ap
          (λ m.
            if contains g s.games then one_if m n + closings n s.events else closings n s.events)
          (unfold mark in marked_name g g s);
  name = λ q. k.name q ∙ unfold mark in marked_name g q s;
  shutting = λ q ne. k.shutting q ne ∙ marked_other g q s ne;
}

Closed-shutdown :
    (g : ℕ) (s : Server) → (s.game_at g).currently_shutting_down ≡ false → Closed g s (shutdown g s)
unfolding shutdown mark
Closed-shutdown g s h =
    let s₁ = mark g s in
    let f = suc (length (s.game_at g).clients) in
    let s₂ = shutdown_loop f g s₁ in
    let s₃ = disconnect_host g (s₂.game_at g).host s₂ in
    let left = Same-trans s₁ s₂ s₃ (Same-shutdown_loop f g s₁) (Same-disconnect_host g _ s₂) in
    rw h (marked_Closed g s _ (Same-Closed g s₁ s₃ _ left (Closed-remove_game_object g s₃)))

-- A shutdown, which does nothing to a game that is shutting down already.
pub shutdown-Fine : (g : ℕ) (s : Server) → LobbyFine s → LobbyFine (shutdown g s)
shutdown-Fine g s w = elim (Bool-cases (s.game_at g).currently_shutting_down) [
  | inl e ↦ unfold shutdown in rw e w
  | inr e ↦ Closed-Fine g s (shutdown g s) (Closed-shutdown g s e) w
]

pub remove_game-Fine : (name : Bytes) (s : Server) → LobbyFine s → LobbyFine (remove_game name s).1
unfolding remove_game
remove_game-Fine name s w = elim (Option-cases (find_game s.game_at name s.games)) [
  | inl e ↦ rw (e, remove_game) w
  | inr (g, e) ↦ rw (e, remove_game) (shutdown-Fine g s w)
]

pub disconnect_client-Fine :
    (g c : ℕ) (reason : Bytes) (s : Server)
    → LobbyFine s
    → LobbyFine (disconnect_client g c reason s)
unfolding disconnect_client
disconnect_client-Fine g c reason s w =
    let t = disconnect c reason s in
    let u = put_game g (record (t.game_at g) { host = none }) t in
    if_cases LobbyFine (is_host (s.game_at g) c)
      (λ _. shutdown-Fine g u (
        Same-Fine s u
          (Same-trans s t u (Same-disconnect c reason s) (Same-put_game g _ t refl refl)) w))
      (λ _. Same-Fine s _ (Same-drop_client g c reason s) w)

hostless_listed :
    (at : ℕ → Game) (n : Bytes) (g : ℕ) (gs : List ℕ)
    → find_hostless at n gs ≡ some g
    → (contains g gs ≡ true) × (bytes_eq (at g).game_name n ≡ true)
unfolding find_hostless contains
hostless_listed at n g [] h = cc
hostless_listed at n g (x ∷ xs) h = ground (arith, hostless_listed at n g xs, ==_refl x)

pub remove_game_if_no_host_is_connected-Fine :
    (name : Bytes) (s : Server)
    → LobbyFine s
    → LobbyFine (remove_game_if_no_host_is_connected name s)
unfolding remove_game_if_no_host_is_connected
remove_game_if_no_host_is_connected-Fine name s w =
    elim (Option-cases (find_hostless s.game_at name s.games)) [
      | inl e ↦ rw (e, remove_game_if_no_host_is_connected) w
      | inr (g, e) ↦
          rw (e, remove_game_if_no_host_is_connected)
            (let (listed, same) = hostless_listed s.game_at name g s.games e in
              Closed-Fine g s _
                (Closed-listed g name s listed
                  (sym (eq_of_bytes_eq (s.game_at g).game_name name same)))
                w)
    ]
