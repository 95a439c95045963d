-- ===== src/Relay/Run/Beside.antt =====
-- wlnr/game.go: the shutdown of a game leaves other games and the clients that are not in it.
use widelands_metaserver.Base.{
  ℕ, zero, suc, true, false, Option, none, some, List, ◌∷◌, ◌==◌, ◌≡◌, refl, ap, ◌∙◌, arith,
  Bool-cases, List-cases, inl, inr, if_cases, ==_refl, length, Bytes, str,
}
use widelands_metaserver.Relay.State.{Game, Server, put_game, send_command}
use widelands_metaserver.Relay.Games.{
  contains, is_host, tell_host, drop_client, disconnect_in_shutdown, shutdown_loop, disconnect_host,
  remove_game_object, shutdown,
}
use widelands_metaserver.Relay.Games.Shutdown.{
  disconnect_games, tell_host_games, without_first, round,
}
use widelands_metaserver.Relay.Games.Telling.{disconnect_open, not_first, not_later}

pub record Beside (g : ℕ) (s t : Server) : Type 0 where
  pub others : (q : ℕ) → (q == g) ≡ false → t.game_at q ≡ s.game_at q
  pub opened :
      (h : ℕ)
      → is_host (s.game_at g) h ≡ false
      → contains h (s.game_at g).clients ≡ false
      → (t.client_at h).is_open ≡ (s.client_at h).is_open
  host_stays : (h : ℕ) → is_host (s.game_at g) h ≡ false → is_host (t.game_at g) h ≡ false
  players_stay :
      (h : ℕ) → contains h (s.game_at g).clients ≡ false → contains h (t.game_at g).clients ≡ false

Beside-refl : (g : ℕ) (s : Server) → Beside g s s
Beside-refl g s = record {
  others = λ _ _. refl;
  opened = λ _ _ _. refl;
  host_stays = λ _ e. e;
  players_stay = λ _ e. e;
}

Beside-trans : (g : ℕ) (s t u : Server) → Beside g s t → Beside g t u → Beside g s u
Beside-trans g s t u a b = record {
  others = λ q ne. b.others q ne ∙ a.others q ne;
  opened = λ h x y. b.opened h (a.host_stays h x) (a.players_stay h y) ∙ a.opened h x y;
  host_stays = λ h x. b.host_stays h (a.host_stays h x);
  players_stay = λ h y. b.players_stay h (a.players_stay h y);
}

tell_host_clients :
    (o : Option ℕ) (id : ℕ) (s : Server) → (tell_host o id s).client_at ≡ s.client_at
unfolding tell_host send_command
tell_host_clients none id s = refl
tell_host_clients (some h) id s = refl

swap : (a b : ℕ) → (a == b) ≡ false → (b == a) ≡ false
swap a b h = ground arith

-- What is left of the game has no other host and no other players.
without_host :
    (c h : ℕ) (cs : List ℕ) (v : Game)
    → is_host v h ≡ false
    → is_host (without_first c cs v) h ≡ false
without_host c h cs v e = elim (Bool-cases (is_host v c)) [ inl k ↦ rw k refl | inr k ↦ rw k e ]

without_players :
    (c h : ℕ) (cs : List ℕ) (v : Game)
    → v.clients ≡ c ∷ cs
    → contains h v.clients ≡ false
    → contains h (without_first c cs v).clients ≡ false
without_players c h cs v k e = elim (Bool-cases (is_host v c)) [
  | inl i ↦ rw i e
  | inr i ↦ rw i (not_later h c cs (rw k at e))
]

round_others :
    (g c q : ℕ) (cs : List ℕ) (reason : Bytes) (s : Server)
    → (s.game_at g).clients ≡ c ∷ cs
    → (q == g) ≡ false
    → (disconnect_in_shutdown g c reason s).game_at q ≡ s.game_at q
unfolding disconnect_in_shutdown drop_client put_game contains
round_others g c q cs reason s k ne = elim (Bool-cases (is_host (s.game_at g) c)) [
  | inl e ↦ rw (e, ne) (ap (λ f. f q) (disconnect_games c reason s).game_at)
  | inr e ↦
      let t = tell_host (s.game_at g).host (s.client_at c).id s in
      rw (e, k, ==_refl c, ne)
        (ap (λ f. f q) (disconnect_games c reason t).game_at
          ∙ ap (λ f. f q) (tell_host_games (s.game_at g).host (s.client_at c).id s).game_at)
]

round_opened :
    (g c h : ℕ) (cs : List ℕ) (reason : Bytes) (s : Server)
    → (s.game_at g).clients ≡ c ∷ cs
    → (h == c) ≡ false
    → ((disconnect_in_shutdown g c reason s).client_at h).is_open ≡ (s.client_at h).is_open
unfolding disconnect_in_shutdown drop_client put_game contains
round_opened g c h cs reason s k ne = elim (Bool-cases (is_host (s.game_at g) c)) [
  | inl e ↦ rw e (disconnect_open c h reason s ne)
  | inr e ↦
      let t = tell_host (s.game_at g).host (s.client_at c).id s in
      rw (e, k, ==_refl c)
        (disconnect_open c h reason t ne
          ∙ ap (λ f. (f h).is_open) (tell_host_clients (s.game_at g).host (s.client_at c).id s))
]

Beside-round :
    (g c : ℕ) (cs : List ℕ) (reason : Bytes) (s : Server)
    → (s.game_at g).clients ≡ c ∷ cs
    → Beside g s (disconnect_in_shutdown g c reason s)
Beside-round g c cs reason s k =
    let here = (round g c cs reason s k).0 in
    record {
      others = λ q ne. round_others g c q cs reason s k ne;
      opened = λ h x y. round_opened g c h cs reason s k (not_first h c cs (rw k at y));
      host_stays = λ h x. ap (λ v. is_host v h) here ∙ without_host c h cs (s.game_at g) x;
      players_stay = λ h y.
          ap (λ (v : Game). contains h v.clients) here ∙ without_players c h cs (s.game_at g) k y;
    }

Beside-loop : (f g : ℕ) (s : Server) → Beside g s (shutdown_loop f g s)
unfolding shutdown_loop
Beside-loop zero g s = Beside-refl g s
Beside-loop (suc f) g s = elim (List-cases (s.game_at g).clients) [
  | inl k ↦ rw (k, shutdown_loop) (Beside-refl g s)
  | inr (c, cs, k) ↦
      rw (k, shutdown_loop)
        (Beside-trans g s _ _ (Beside-round g c cs (str "NORMAL") s k) (Beside-loop f g _))
]

Beside-host :
    (g : ℕ) (s : Server) (o : Option ℕ)
    → (s.game_at g).host ≡ o
    → Beside g s (disconnect_host g o s)
unfolding disconnect_host disconnect_in_shutdown put_game
Beside-host g s none e = Beside-refl g s
Beside-host g s (some h) e =
    let same = (disconnect_games h (str "NORMAL") s).game_at in
    rw (e, ==_refl h)
      (record {
        others = λ q ne. rw ne (ap (λ f. f q) same);
        opened = λ q x y. disconnect_open h q (str "NORMAL") s (swap h q (rw e at x));
        host_stays = λ q x. rw (==_refl g) refl;
        players_stay = λ q y. rw (==_refl g, same) y;
      })

Beside-object : (g : ℕ) (s : Server) → Beside g s (remove_game_object g s)
unfolding remove_game_object
Beside-object g s =
    if_cases (Beside g s) (contains g s.games)
      (λ _. record {
        others = λ _ _. refl;
        opened = λ _ _ _. refl;
        host_stays = λ _ e. e;
        players_stay = λ _ e. e;
      })
      (λ _. Beside-refl g s)

Beside-mark :
    (g : ℕ) (s : Server)
    → Beside g s (put_game g (record (s.game_at g) { currently_shutting_down = true }) s)
unfolding put_game
Beside-mark g s = record {
  others = λ q ne. rw ne refl;
  opened = λ _ _ _. refl;
  host_stays = λ h e. rw (==_refl g) e;
  players_stay = λ h e. rw (==_refl g) e;
}

-- Other games stay as they are, and clients that are not in the game keep their connections.
pub Beside-shutdown :
    (g : ℕ) (s : Server) → (s.game_at g).currently_shutting_down ≡ false → Beside g s (shutdown g s)
unfolding shutdown
Beside-shutdown g s running =
    let s₁ = put_game g (record (s.game_at g) { currently_shutting_down = true }) s in
    let s₂ = shutdown_loop (suc (length (s.game_at g).clients)) g s₁ in
    let s₃ = disconnect_host g (s₂.game_at g).host s₂ in
    rw running (
      Beside-trans g s s₁ _ (Beside-mark g s) (
        Beside-trans g s₁ s₂ _ (Beside-loop _ g s₁)
          (Beside-trans g s₂ s₃ _ (Beside-host g s₂ _ refl) (Beside-object g s₃))))
