-- ===== src/Relay/Run/Frame.antt =====
-- wlnr: what the messages and the disconnections leave alone: the list of games and their names.
use widelands_metaserver.Base.{
  if◌then◌else◌, ℕ, zero, suc, ◌+◌, none, some, Option, List, [], ◌∷◌, ◌==◌, ◌≡◌, refl, ◌∙◌, ap,
  sym, Bool-cases, inl, inr, ==_iff, Option-cases, List-cases, if_cases, Bytes, str, bytes_eq, leb,
  not, ◌++◌, ◌%◌,
}
use widelands_metaserver.Relay.State.{
  Client, Game, Task, Event, host_messages, client_messages, connect_client, sent, closed,
  game_connected, game_closed, Server, put_client, put_game, send_command, disconnect, consume,
}
use widelands_metaserver.Relay.Games.{
  tell_host, is_host, contains, drop_client, disconnect_in_shutdown, shutdown_loop, disconnect_host,
  send_welcome, add_host, add_player, add_client, id_host,
}

-- How often the metaserver was told that a game with the name has ended.
unfoldable pub closings : Bytes → List Event → ℕ
closings n [] = 0
closings n (game_closed m ∷ es) = if bytes_eq m n then suc (closings n es) else closings n es
closings n (sent c cmd ∷ es) = closings n es
closings n (closed c ∷ es) = closings n es
closings n (game_connected m ∷ es) = closings n es

pub record Same (s t : Server) : Type 0 where
  pub games : t.games ≡ s.games
  pub next_game : t.next_game ≡ s.next_game
  pub closings : (n : Bytes) → closings n t.events ≡ closings n s.events
  pub name : (g : ℕ) → (t.game_at g).game_name ≡ (s.game_at g).game_name
  pub shutting :
      (g : ℕ) → (t.game_at g).currently_shutting_down ≡ (s.game_at g).currently_shutting_down

pub Same-refl : (s : Server) → Same s s
Same-refl s = record {
  games = refl;
  next_game = refl;
  closings = λ _. refl;
  name = λ _. refl;
  shutting = λ _. refl;
}

pub Same-trans : (s t u : Server) → Same s t → Same t u → Same s u
Same-trans s t u a b = record {
  games = b.games ∙ a.games;
  next_game = b.next_game ∙ a.next_game;
  closings = λ n. b.closings n ∙ a.closings n;
  name = λ g. b.name g ∙ a.name g;
  shutting = λ g. b.shutting g ∙ a.shutting g;
}

pub Same-send : (c : ℕ) (cmd : Bytes) (s : Server) → Same s (send_command c cmd s)
unfolding send_command closings
Same-send c cmd s = record {
  games = refl;
  next_game = refl;
  closings = λ _. refl;
  name = λ _. refl;
  shutting = λ _. refl;
}

pub Same-put_client : (c : ℕ) (v : Client) (s : Server) → Same s (put_client c v s)
unfolding put_client
Same-put_client c v s = record {
  games = refl;
  next_game = refl;
  closings = λ _. refl;
  name = λ _. refl;
  shutting = λ _. refl;
}

pub Same-consume : (c : ℕ) (r : Bytes) (s : Server) → Same s (consume c r s)
unfolding consume
Same-consume c r s = Same-put_client c (record (s.client_at c) { reader = r }) s

pub Same-disconnect : (c : ℕ) (reason : Bytes) (s : Server) → Same s (disconnect c reason s)
unfolding disconnect send_command put_client closings
Same-disconnect c reason s = elim (Bool-cases (s.client_at c).is_open) [
  | inl e ↦ rw e (record {
    games = refl;
    next_game = refl;
    closings = λ _. refl;
    name = λ _. refl;
    shutting = λ _. refl;
  })
  | inr e ↦ rw e (Same-refl s)
]

-- A new value of a game with the name and the mark that it has.
pub Same-put_game :
    (g : ℕ) (v : Game) (s : Server)
    → v.game_name ≡ (s.game_at g).game_name
    → v.currently_shutting_down ≡ (s.game_at g).currently_shutting_down
    → Same s (put_game g v s)
unfolding put_game
Same-put_game g v s n m = record {
  games = refl;
  next_game = refl;
  closings = λ _. refl;
  name = λ q. elim (Bool-cases (q == g)) [
    | inl e ↦ rw e (n ∙ ap (λ x. (s.game_at x).game_name) (sym ((==_iff q g).0 e)))
    | inr e ↦ rw e refl
  ];
  shutting = λ q. elim (Bool-cases (q == g)) [
    | inl e ↦ rw e (m ∙ ap (λ x. (s.game_at x).currently_shutting_down) (sym ((==_iff q g).0 e)))
    | inr e ↦ rw e refl
  ];
}

pub Same-tell_host : (h : Option ℕ) (id : ℕ) (s : Server) → Same s (tell_host h id s)
unfolding tell_host
Same-tell_host none id s = Same-refl s
Same-tell_host (some h) id s = Same-send h _ s

pub Same-drop_client : (g c : ℕ) (reason : Bytes) (s : Server) → Same s (drop_client g c reason s)
unfolding drop_client
Same-drop_client g c reason s =
    let game = s.game_at g in
    let t = tell_host game.host (s.client_at c).id s in
    let u = disconnect c reason t in
    let left =
      Same-trans s t u (Same-tell_host game.host (s.client_at c).id s)
        (Same-disconnect c reason t) in
    if_cases (Same s) (contains c game.clients)
      (λ _. Same-trans s u _ left (Same-put_game g _ u refl refl)) (λ _. Same-refl s)

pub Same-disconnect_in_shutdown :
    (g c : ℕ) (reason : Bytes) (s : Server) → Same s (disconnect_in_shutdown g c reason s)
unfolding disconnect_in_shutdown
Same-disconnect_in_shutdown g c reason s =
    let t = disconnect c reason s in
    if_cases (Same s) (is_host (s.game_at g) c)
      (λ _. Same-trans s t _ (Same-disconnect c reason s) (Same-put_game g _ t refl refl))
      (λ _. Same-drop_client g c reason s)

pub Same-shutdown_loop : (f g : ℕ) (s : Server) → Same s (shutdown_loop f g s)
unfolding shutdown_loop
Same-shutdown_loop zero g s = Same-refl s
Same-shutdown_loop (suc f) g s = elim (List-cases (s.game_at g).clients) [
  | inl e ↦ rw (e, shutdown_loop) (Same-refl s)
  | inr (c, cs, e) ↦
      let t = disconnect_in_shutdown g c (str "NORMAL") s in
      rw (e, shutdown_loop)
        (Same-trans s t _ (Same-disconnect_in_shutdown g c (str "NORMAL") s)
          (Same-shutdown_loop f g t))
]

pub Same-disconnect_host : (g : ℕ) (h : Option ℕ) (s : Server) → Same s (disconnect_host g h s)
unfolding disconnect_host
Same-disconnect_host g none s = Same-refl s
Same-disconnect_host g (some h) s = Same-disconnect_in_shutdown g h (str "NORMAL") s

pub Same-send_welcome : (g c : ℕ) (s : Server) → Same s (send_welcome g c s)
unfolding send_welcome
Same-send_welcome g c s = Same-send c _ s

-- What the metaserver is told of a host, and the goroutine that is started.
Same-noted :
    (n : Bytes) (ts : List Task) (s : Server)
    → Same s (record s { tasks = ts; events = game_connected n ∷ s.events })
unfolding closings
Same-noted n ts s = record {
  games = refl;
  next_game = refl;
  closings = λ _. refl;
  name = λ _. refl;
  shutting = λ _. refl;
}

pub Same-tasks : (ts : List Task) (s : Server) → Same s (record s { tasks = ts })
Same-tasks ts s = record {
  games = refl;
  next_game = refl;
  closings = λ _. refl;
  name = λ _. refl;
  shutting = λ _. refl;
}

Same-add_host :
    (g c version : ℕ) (password : Bytes) (s : Server) → Same s (add_host g c version password s)
unfolding add_host
Same-add_host g c version password s =
    let game = s.game_at g in
    let s₁ = put_game g (record game { protocol_version = version; host = some c }) s in
    let s₂ = put_client c (record (s.client_at c) { id = id_host }) s₁ in
    let s₃ = record s₂ {
      tasks = host_messages g ∷ s₂.tasks;
      events = game_connected game.game_name ∷ s₂.events;
    } in
    if_cases (Same s) (bytes_eq password game.host_password)
      (λ _. Same-trans s s₁ _ (Same-put_game g _ s refl refl) (
        Same-trans s₁ s₂ _ (Same-put_client c _ s₁)
          (Same-trans s₂ s₃ _ (Same-noted game.game_name _ s₂) (Same-send_welcome g c s₃))))
      (λ _. Same-disconnect c (str "NO_HOST") s)

Same-add_player : (g h c version : ℕ) (s : Server) → Same s (add_player g h c version s)
unfolding add_player put_client
Same-add_player g h c version s =
    let game = s.game_at g in
    let id = game.next_client_id in
    let s₁ = put_client c (record (s.client_at c) { id = id }) s in
    let s₂ =
      put_game g
        (record game { next_client_id = (id + 1) % 256; clients = game.clients ++ (c ∷ []) }) s₁ in
    let s₃ = record s₂ { tasks = client_messages g c ∷ s₂.tasks } in
    let s₄ = send_command h (connect_client ∷ id ∷ []) s₃ in
    if_cases (Same s) (not (game.protocol_version == version))
      (λ _. Same-disconnect c (str "WRONG_VERSION") s)
      (λ _.
        if_cases (Same s) (leb 250 id) (λ _. Same-disconnect c (str "NORMAL") s)
          (λ _. Same-trans s s₁ _ (Same-put_client c _ s) (
            Same-trans s₁ s₂ _ (Same-put_game g _ s₁ refl refl) (
              Same-trans s₂ s₃ _ (Same-tasks _ s₂)
                (Same-trans s₃ s₄ _ (Same-send h _ s₃) (Same-send_welcome g c s₄))))))

pub Same-add_client :
    (g c version : ℕ) (password : Bytes) (s : Server) → Same s (add_client g c version password s)
unfolding add_client
Same-add_client g c version password s = elim (Option-cases (s.game_at g).host) [
  | inl e ↦ rw (e, add_client) (Same-add_host g c version password s)
  | inr (h, e) ↦ rw (e, add_client) (Same-add_player g h c version s)
]
