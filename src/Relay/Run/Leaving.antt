-- ===== src/Relay/Run/Leaving.antt =====
-- wlnr/game.go and server.go: who leaves a game, and a game that ends, take players away and no more.
use widelands_metaserver.Base.{
  ℕ, zero, suc, true, none, some, Option, ◌≡◌, refl, ◌∙◌, sym, subst, Option-cases, List-cases, inl,
  inr, if_cases, length, Bytes, str,
}
use widelands_metaserver.Relay.State.{Server, put_game, disconnect}
use widelands_metaserver.Relay.Games.{
  contains, remove_first, remove_game_object, find_game, find_hostless, is_host, tell_host,
  drop_client, disconnect_in_shutdown, shutdown_loop, disconnect_host, shutdown, disconnect_client,
  remove_game, remove_game_if_no_host_is_connected,
}
use widelands_metaserver.Relay.Games.Shutdown.{disconnect_games, tell_host_games}
use widelands_metaserver.Relay.Run.Calm.{
  Sub, Sub-refl, Sub-remove_first, Calm, Calm-refl, Calm-trans, Calm-games, Calm-send,
  Calm-disconnect, Calm-put_game,
}

Calm-tell_host : (h : Option ℕ) (id : ℕ) (s : Server) → Calm s (tell_host h id s)
unfolding tell_host
Calm-tell_host none id s = Calm-refl s
Calm-tell_host (some h) id s = Calm-send h _ s

Calm-drop_client : (g c : ℕ) (reason : Bytes) (s : Server) → Calm s (drop_client g c reason s)
unfolding drop_client
Calm-drop_client g c reason s =
    let game = s.game_at g in
    let t = tell_host game.host (s.client_at c).id s in
    let u = disconnect c reason t in
    let same : u.game_at ≡ s.game_at =
      (disconnect_games c reason t).game_at
      ∙ (tell_host_games game.host (s.client_at c).id s).game_at in
    let left =
      Calm-trans s t u (Calm-tell_host game.host (s.client_at c).id s)
        (Calm-disconnect c reason t) in
    if_cases (Calm s) (contains c game.clients)
      (λ _. Calm-trans s u _ left (
        Calm-put_game g _ u refl (
          subst (λ f. Sub (remove_first c game.clients) (f g).clients) (sym same)
            (Sub-remove_first c game.clients))))
      (λ _. Calm-refl s)

-- The host leaves.
Calm-host :
    (g c : ℕ) (reason : Bytes) (s : Server)
    → let t = disconnect c reason s in Calm s (put_game g (record (t.game_at g) { host = none }) t)
Calm-host g c reason s =
    let t = disconnect c reason s in
    Calm-trans s t _ (Calm-disconnect c reason s)
      (Calm-put_game g _ t refl (Sub-refl (t.game_at g).clients))

Calm-disconnect_in_shutdown :
    (g c : ℕ) (reason : Bytes) (s : Server) → Calm s (disconnect_in_shutdown g c reason s)
unfolding disconnect_in_shutdown
Calm-disconnect_in_shutdown g c reason s =
    if_cases (Calm s) (is_host (s.game_at g) c) (λ _. Calm-host g c reason s)
      (λ _. Calm-drop_client g c reason s)

Calm-shutdown_loop : (f g : ℕ) (s : Server) → Calm s (shutdown_loop f g s)
unfolding shutdown_loop
Calm-shutdown_loop zero g s = Calm-refl s
Calm-shutdown_loop (suc f) g s = elim (List-cases (s.game_at g).clients) [
  | inl e ↦ rw (e, shutdown_loop) (Calm-refl s)
  | inr (c, cs, e) ↦
      let t = disconnect_in_shutdown g c (str "NORMAL") s in
      rw (e, shutdown_loop)
        (Calm-trans s t _ (Calm-disconnect_in_shutdown g c (str "NORMAL") s)
          (Calm-shutdown_loop f g t))
]

Calm-disconnect_host : (g : ℕ) (h : Option ℕ) (s : Server) → Calm s (disconnect_host g h s)
unfolding disconnect_host
Calm-disconnect_host g none s = Calm-refl s
Calm-disconnect_host g (some h) s = Calm-disconnect_in_shutdown g h (str "NORMAL") s

Calm-remove_game_object : (g : ℕ) (s : Server) → Calm s (remove_game_object g s)
unfolding remove_game_object
Calm-remove_game_object g s =
    if_cases (Calm s) (contains g s.games) (λ _. Calm-games s _ refl refl refl refl refl)
      (λ _. Calm-refl s)

pub Calm-shutdown : (g : ℕ) (s : Server) → Calm s (shutdown g s)
unfolding shutdown
Calm-shutdown g s =
    let game = s.game_at g in
    let s₁ = put_game g (record game { currently_shutting_down = true }) s in
    let s₂ = shutdown_loop (suc (length game.clients)) g s₁ in
    let s₃ = disconnect_host g (s₂.game_at g).host s₂ in
    if_cases (Calm s) game.currently_shutting_down (λ _. Calm-refl s)
      (λ _. Calm-trans s s₁ _ (Calm-put_game g _ s refl (Sub-refl game.clients)) (
        Calm-trans s₁ s₂ _ (Calm-shutdown_loop _ g s₁)
          (Calm-trans s₂ s₃ _ (Calm-disconnect_host g _ s₂) (Calm-remove_game_object g s₃))))

pub Calm-disconnect_client :
    (g c : ℕ) (reason : Bytes) (s : Server) → Calm s (disconnect_client g c reason s)
unfolding disconnect_client
Calm-disconnect_client g c reason s =
    if_cases (Calm s) (is_host (s.game_at g) c)
      (λ _. Calm-trans s _ _ (Calm-host g c reason s) (Calm-shutdown g _))
      (λ _. Calm-drop_client g c reason s)

pub Calm-remove_game : (name : Bytes) (s : Server) → Calm s (remove_game name s).1
unfolding remove_game
Calm-remove_game name s = elim (Option-cases (find_game s.game_at name s.games)) [
  | inl e ↦ rw (e, remove_game) (Calm-refl s)
  | inr (g, e) ↦ rw (e, remove_game) (Calm-shutdown g s)
]

pub Calm-remove_game_if_no_host_is_connected :
    (name : Bytes) (s : Server) → Calm s (remove_game_if_no_host_is_connected name s)
unfolding remove_game_if_no_host_is_connected
Calm-remove_game_if_no_host_is_connected name s =
    elim (Option-cases (find_hostless s.game_at name s.games)) [
      | inl e ↦ rw (e, remove_game_if_no_host_is_connected) (Calm-refl s)
      | inr (g, e) ↦
          rw (e, remove_game_if_no_host_is_connected) (Calm-games s _ refl refl refl refl refl)
    ]
