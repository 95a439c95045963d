-- ===== src/Relay/Games/Shutdown.antt =====
-- wlnr/game.go: the shutdown of a game.
use widelands_metaserver.Base.{
  ℕ, zero, suc, ◌+◌, ◌≤◌, true, false, none, some, Option, List, [], ◌∷◌, ◌==◌, if◌then◌else◌, ◌≡◌,
  refl, ap, ◌∙◌, sym, arith, Bool-cases, inl, inr, ==_refl, is_some, length, Bytes, str,
  Option-cases, List-cases,
}
use widelands_metaserver.Relay.State.{Game, Server, put_client, put_game, send_command, disconnect}
use widelands_metaserver.Relay.Games.{
  contains, remove_first, remove_game_object, is_host, tell_host, drop_client,
  disconnect_in_shutdown, shutdown_loop, disconnect_host, shutdown,
}

-- What a disconnection leaves alone.
pub record SameGames (s t : Server) : Type 0 where
  pub games : t.games ≡ s.games
  pub game_at : t.game_at ≡ s.game_at

pub disconnect_games : (c : ℕ) (reason : Bytes) (s : Server) → SameGames s (disconnect c reason s)
unfolding disconnect send_command put_client
disconnect_games c reason s = elim (Bool-cases (s.client_at c).is_open) [
  | inl e ↦ rw e (record { games = refl; game_at = refl })
  | inr e ↦ rw e (record { games = refl; game_at = refl })
]

pub tell_host_games : (h : Option ℕ) (id : ℕ) (s : Server) → SameGames s (tell_host h id s)
unfolding tell_host send_command
tell_host_games none id s = record { games = refl; game_at = refl }
tell_host_games (some h) id s = record { games = refl; game_at = refl }

pub put_game_self : (g : ℕ) (v : Game) (s : Server) → (put_game g v s).game_at g ≡ v
unfolding put_game
put_game_self g v s = rw (==_refl g) refl

-- What is left of a game when a client goes: the host, or the first of the players.
abbrev pub without_first : ℕ → List ℕ → Game → Game
without_first c cs v = if is_host v c then record v { host = none } else record v { clients = cs }

drop_client_first :
    (g c : ℕ) (cs : List ℕ) (reason : Bytes) (s : Server)
    → (s.game_at g).clients ≡ c ∷ cs
    → ((drop_client g c reason s).game_at g ≡ record (s.game_at g) { clients = cs })
      × ((drop_client g c reason s).games ≡ s.games)
unfolding drop_client contains remove_first put_game
drop_client_first g c cs reason s h =
    let t = tell_host (s.game_at g).host (s.client_at c).id s in
    let k = tell_host_games (s.game_at g).host (s.client_at c).id s in
    let l = disconnect_games c reason t in
    rw (h, ==_refl c, ==_refl g)
      (ap (λ f. record (f g) { clients = cs }) (l.game_at ∙ k.game_at), l.games ∙ k.games)

pub round :
    (g c : ℕ) (cs : List ℕ) (reason : Bytes) (s : Server)
    → (s.game_at g).clients ≡ c ∷ cs
    → ((disconnect_in_shutdown g c reason s).game_at g ≡ without_first c cs (s.game_at g))
      × ((disconnect_in_shutdown g c reason s).games ≡ s.games)
unfolding disconnect_in_shutdown put_game
round g c cs reason s h =
    let l = disconnect_games c reason s in
    elim (Bool-cases (is_host (s.game_at g) c)) [
      | inl e ↦ rw (e, ==_refl g) (ap (λ f. record (f g) { host = none }) l.game_at, l.games)
      | inr e ↦ rw e (drop_client_first g c cs reason s h)
    ]

-- How many are in the game.
abbrev size : Game → ℕ
size v = length v.clients + (if is_some v.host then 1 else 0)

size_round :
    (c : ℕ) (cs : List ℕ) (v : Game)
    → v.clients ≡ c ∷ cs
    → suc (size (without_first c cs v)) ≡ size v
size_round c cs v h = elim (Option-cases v.host) [
  | inl e ↦ rw (e, h) (omega arith)
  | inr (x, e) ↦ elim (Bool-cases (x == c)) [
    | inl k ↦ rw (e, k, h) (omega arith)
    | inr k ↦ rw (e, k, h) (omega arith)
  ]
]

without_first_shutting :
    (c : ℕ) (cs : List ℕ) (v : Game)
    → (without_first c cs v).currently_shutting_down ≡ v.currently_shutting_down
without_first_shutting c cs v = elim (Bool-cases (is_host v c)) [
  | inl e ↦ rw e refl
  | inr e ↦ rw e refl
]

no_fuel : (v : Game) → size v ≤ 0 → v.clients ≡ []
no_fuel v le = elim (List-cases v.clients) [
  | inl e ↦ e
  | inr (c, cs, e) ↦ absurd (omega (arith, ap length e))
]

enough : (v : Game) → size v ≤ suc (length v.clients)
enough v = elim (Option-cases v.host) [
  | inl e ↦ rw e (omega arith)
  | inr (h, e) ↦ rw e (omega arith)
]

loop_result :
    (f g : ℕ) (s : Server)
    → size (s.game_at g) ≤ f
    → (((shutdown_loop f g s).game_at g).clients ≡ [])
      × ((shutdown_loop f g s).games ≡ s.games)
      × (((shutdown_loop f g s).game_at g).currently_shutting_down
          ≡ (s.game_at g).currently_shutting_down)
unfolding shutdown_loop
loop_result zero g s le = (no_fuel (s.game_at g) le, refl, refl)
loop_result (suc f) g s le = elim (List-cases (s.game_at g).clients) [
  | inl e ↦ rw (e, shutdown_loop) (e, refl, refl)
  | inr (c, cs, e) ↦
      let t = disconnect_in_shutdown g c (str "NORMAL") s in
      let (here, same) = round g c cs (str "NORMAL") s e in
      let smaller = ap size here in
      let next = loop_result f g t (omega (arith, size_round c cs (s.game_at g) e)) in
      rw (e, shutdown_loop)
        (
          next.0,
          next.1 ∙ same,
          next.2
              ∙ ap (λ (v : Game). v.currently_shutting_down) here
              ∙ without_first_shutting c cs (s.game_at g),
        )
]

host_gone :
    (g h : ℕ) (s : Server)
    → (s.game_at g).host ≡ some h
    → ((disconnect_in_shutdown g h (str "NORMAL") s).game_at g
        ≡ record (s.game_at g) { host = none })
      × ((disconnect_in_shutdown g h (str "NORMAL") s).games ≡ s.games)
unfolding disconnect_in_shutdown put_game
host_gone g h s e =
    let k = disconnect_games h (str "NORMAL") s in
    let its_host : is_host (s.game_at g) h ≡ true = rw e (==_refl h) in
    rw (its_host, ==_refl g) (ap (λ f. record (f g) { host = none }) k.game_at, k.games)

-- The end of a shutdown: the host leaves.
host_leaves :
    (g : ℕ) (s : Server)
    → let t = disconnect_host g (s.game_at g).host s in
      ((t.game_at g).clients ≡ (s.game_at g).clients)
      × ((t.game_at g).host ≡ none)
      × (t.games ≡ s.games)
      × ((t.game_at g).currently_shutting_down ≡ (s.game_at g).currently_shutting_down)
unfolding disconnect_host
host_leaves g s = elim (Option-cases (s.game_at g).host) [
  | inl e ↦ rw (e, disconnect_host) (refl, e, refl, refl)
  | inr (h, e) ↦
      let (here, same) = host_gone g h s e in
      rw (e, disconnect_host)
        (
          ap (λ (v : Game). v.clients) here,
          ap (λ (v : Game). v.host) here,
          same,
          ap (λ (v : Game). v.currently_shutting_down) here,
        )
]

pub remove_first-absent : (g : ℕ) (gs : List ℕ) → contains g gs ≡ false → remove_first g gs ≡ gs
unfolding contains remove_first
remove_first-absent g [] h = refl
remove_first-absent g (x ∷ xs) h = ground (arith, remove_first-absent g xs)

object_removed :
    (g : ℕ) (s : Server)
    → ((remove_game_object g s).games ≡ remove_first g s.games)
      × ((remove_game_object g s).game_at ≡ s.game_at)
unfolding remove_game_object
object_removed g s = elim (Bool-cases (contains g s.games)) [
  | inl e ↦ rw e (refl, refl)
  | inr e ↦ rw e (sym (remove_first-absent g s.games e), refl)
]

-- What the shutdown of a game that is not shutting down already leaves, where no send hangs.
pub shutdown_empties :
    (g : ℕ) (s : Server)
    → (s.game_at g).currently_shutting_down ≡ false
    → (((shutdown g s).game_at g).clients ≡ [])
      × (((shutdown g s).game_at g).host ≡ none)
      × (((shutdown g s).game_at g).currently_shutting_down ≡ true)
      × ((shutdown g s).games ≡ remove_first g s.games)
unfolding shutdown
shutdown_empties g s h =
    let s₁ = put_game g (record (s.game_at g) { currently_shutting_down = true }) s in
    let f = suc (length (s.game_at g).clients) in
    let marked = put_game_self g (record (s.game_at g) { currently_shutting_down = true }) s in
    let looped = loop_result f g s₁ (rw marked (enough (s.game_at g))) in
    let left = host_leaves g (shutdown_loop f g s₁) in
    let removed =
      object_removed g
        (disconnect_host g ((shutdown_loop f g s₁).game_at g).host (shutdown_loop f g s₁)) in
    rw h (
      ap (λ f. (f g).clients) removed.1 ∙ left.0 ∙ looped.0,
      ap (λ f. (f g).host) removed.1 ∙ left.1,
      ap (λ f. (f g).currently_shutting_down) removed.1
          ∙ left.3
          ∙ looped.2
          ∙ ap (λ (v : Game). v.currently_shutting_down) marked,
      removed.0 ∙ ap (remove_first g) (left.2 ∙ looped.1 ∙ unfold put_game in refl),
    )
