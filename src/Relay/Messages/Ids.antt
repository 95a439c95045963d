-- ===== src/Relay/Messages/Ids.antt =====
-- wlnr/game.go: the ids of the players of a game.
use mathlib.Core.Path.{fun_ext}
use widelands_metaserver.Base.{
  ℕ, ◌+◌, ◌≤◌, ◌<◌, ◌%◌, true, false, none, some, Option, ◌==◌, ◌≡◌, refl, ap, ◌∙◌, sym, arith,
  Bool-cases, inl, inr, ==_refl, leb, Bytes, str, bytes_eq, Option-cases, subst,
}
use widelands_metaserver.Relay.State.{
  Client, Server, put_client, put_game, send_command, disconnect,
}
use widelands_metaserver.Relay.Games.{
  id_host, contains, tell_host, drop_client, add_host, add_player, add_client, send_welcome,
}
use widelands_metaserver.Relay.Games.Shutdown.{disconnect_games, tell_host_games}
use widelands_metaserver.Relay.Messages.{get_client}
use widelands_metaserver.Relay.Messages.Between.{
  Between, Between-remove, Between-push, Between-same, found_by_id,
}

abbrev pub ids : Server → ℕ → ℕ
ids s c = (s.client_at c).id

-- The ids of the players of a game are different, from 2 on, and below the next one, which is at most 250.
abbrev pub IdsInOrder : ℕ → Server → Type 0
IdsInOrder g s =
    Between (ids s) 2 (s.game_at g).clients (s.game_at g).next_client_id
    × ((s.game_at g).next_client_id ≤ 250)

-- Where the ids are in order, the host reaches each player of the game under the player's own id.
pub get_client-id :
    (g p : ℕ) (s : Server)
    → IdsInOrder g s
    → contains p (s.game_at g).clients ≡ true
    → get_client s.client_at (s.client_at p).id (s.game_at g).clients ≡ some p
get_client-id g p s b h = found_by_id s.client_at p 2 _ _ b.0 h

-- A change that leaves the games and the ids.
pub ids-disconnect :
    (c q : ℕ) (reason : Bytes) (s : Server) → ids (disconnect c reason s) q ≡ ids s q
unfolding disconnect send_command put_client
ids-disconnect c q reason s = elim (Bool-cases (s.client_at c).is_open) [
  | inl e ↦ rw e (ground arith)
  | inr e ↦ rw e refl
]

InOrder-same :
    (g : ℕ) (s t : Server)
    → (t.game_at g).clients ≡ (s.game_at g).clients
    → (t.game_at g).next_client_id ≡ (s.game_at g).next_client_id
    → ((q : ℕ) → ids t q ≡ ids s q)
    → IdsInOrder g s
    → IdsInOrder g t
InOrder-same g s t c n i b =
    rw (c, n)
      (
        subst (λ f. Between f 2 (s.game_at g).clients (s.game_at g).next_client_id)
            (sym (fun_ext i)) b.0,
        b.1,
      )

disconnect-InOrder :
    (g c : ℕ) (reason : Bytes) (s : Server) → IdsInOrder g s → IdsInOrder g (disconnect c reason s)
disconnect-InOrder g c reason s b =
    let k = (disconnect_games c reason s).game_at in
    InOrder-same g s (disconnect c reason s) (ap (λ f. (f g).clients) k)
      (ap (λ f. (f g).next_client_id) k) (λ q. ids-disconnect c q reason s) b

put_id_other :
    (c q : ℕ) (v : Client) (s : Server) → (q == c) ≡ false → ids (put_client c v s) q ≡ ids s q
unfolding put_client
put_id_other c q v s ne = rw (ids, ne) refl

put_id_self : (c : ℕ) (v : Client) (s : Server) → ids (put_client c v s) c ≡ v.id
unfolding put_client
put_id_self c v s = rw (ids, ==_refl c) refl

add_host-InOrder :
    (g c version : ℕ) (password : Bytes) (s : Server)
    → contains c (s.game_at g).clients ≡ false
    → IdsInOrder g s
    → IdsInOrder g (add_host g c version password s)
unfolding add_host send_welcome send_command put_game put_client
add_host-InOrder g c version password s un b =
    let v = record (s.client_at c) { id = id_host } in
    elim (Bool-cases (bytes_eq password (s.game_at g).host_password)) [
      | inl e ↦
          rw (e, ==_refl g)
            (
              Between-same (ids s) (ids (put_client c v s)) c 2 _ _ un
                  (λ q ne. put_id_other c q v s ne) b.0,
              b.1,
            )
      | inr e ↦ rw e (disconnect-InOrder g c (str "NO_HOST") s b)
    ]

add_player-InOrder :
    (g h c version : ℕ) (s : Server)
    → contains c (s.game_at g).clients ≡ false
    → IdsInOrder g s
    → IdsInOrder g (add_player g h c version s)
unfolding add_player send_welcome send_command put_game
add_player-InOrder g h c version s un b =
    let game = s.game_at g in
    let v = record (s.client_at c) { id = game.next_client_id } in
    let ids' = ids (put_client c v s) in
    elim (Bool-cases (game.protocol_version == version)) [
      | inr e ↦ rw e (disconnect-InOrder g c (str "WRONG_VERSION") s b)
      | inl e ↦ elim (Bool-cases (leb 250 game.next_client_id)) [
        | inl f ↦ rw (e, f) (disconnect-InOrder g c (str "NORMAL") s b)
        | inr f ↦
            let below : game.next_client_id < 250 = ground (arith) in
            let no_wrap : (game.next_client_id + 1) % 256 ≡ game.next_client_id + 1 = omega arith in
            rw (e, f, ==_refl g, no_wrap)
              (
                Between-push ids' c 2 game.clients game.next_client_id
                    (Between-same (ids s) ids' c 2 _ _ un (λ q ne. put_id_other c q v s ne) b.0)
                    (put_id_self c v s),
                omega arith,
              )
      ]
    ]

-- A newcomer, accepted as the host or as a player, or turned away, leaves the ids of the game's players in
-- order: they go up from 2 on, below the next one, which is at most 250. So they are different, none is
-- that of the host, and the next id, of 8 bits, does not wrap around.
pub add_client-InOrder :
    (g c version : ℕ) (password : Bytes) (s : Server)
    → contains c (s.game_at g).clients ≡ false
    → IdsInOrder g s
    → IdsInOrder g (add_client g c version password s)
unfolding add_client
add_client-InOrder g c version password s un b = elim (Option-cases (s.game_at g).host) [
  | inl e ↦ rw (e, add_client) (add_host-InOrder g c version password s un b)
  | inr (h, e) ↦ rw (e, add_client) (add_player-InOrder g h c version s un b)
]

ids-tell_host : (h : Option ℕ) (id : ℕ) (q : ℕ) (s : Server) → ids (tell_host h id s) q ≡ ids s q
unfolding tell_host send_command
ids-tell_host none id q s = refl
ids-tell_host (some h) id q s = refl

-- The departure of a player that is not the host leaves the ids of the others in order.
pub drop_client-InOrder :
    (g c : ℕ) (reason : Bytes) (s : Server)
    → IdsInOrder g s
    → IdsInOrder g (drop_client g c reason s)
unfolding drop_client put_game
drop_client-InOrder g c reason s b =
    let game = s.game_at g in
    let t = tell_host game.host (s.client_at c).id s in
    let u = disconnect c reason t in
    let same : ids u ≡ ids s =
      fun_ext λ q. ids-disconnect c q reason t ∙ ids-tell_host game.host (s.client_at c).id q s in
    let games : u.game_at ≡ s.game_at =
      (disconnect_games c reason t).game_at
      ∙ (tell_host_games game.host (s.client_at c).id s).game_at in
    elim (Bool-cases (contains c game.clients)) [
      | inl e ↦
          rw (e, ==_refl g, same, ap (λ f. (f g).next_client_id) games)
            (Between-remove (ids s) c 2 game.clients game.next_client_id b.0, b.1)
      | inr e ↦ rw e b
    ]
