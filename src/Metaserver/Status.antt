-- ===== src/Metaserver/Status.antt =====
-- wlms/server.go: the status that is asked for over RPC, and its numbers.
use widelands_metaserver.Base.{
  refl, Bool, Bool-cases, inl, inr, ◌+◌, ◌≡◌, arith, ℕ, suc, not, ◌&&◌, List, [], ◌∷◌,
  if◌then◌else◌, is_some, length,
}
use widelands_metaserver.Metaserver.World.{connectable, is_connected, is_irc, Client, Game, Server}
use widelands_metaserver.Metaserver.Clients.{active_clients, nr_active_clients}
use widelands_metaserver.Metaserver.Games.{game_state_eq}

pub record ServerStatus : Type 0 where
  pub n_clients : ℕ
  pub n_clients_in_games : ℕ
  pub n_games : ℕ
  pub n_open_games : ℕ

unfoldable pub count_users : (ℕ → Client) → List ℕ → ℕ × ℕ → ℕ × ℕ
count_users at [] n = n
count_users at (p ∷ ps) (users, in_games) =
    let c = at p in
    let counted = is_connected c.state && not (is_irc c.permissions) in
    count_users at ps (
      if counted then suc users else users,
      if counted && is_some c.game then suc in_games else in_games,
    )

unfoldable pub count_games : (ℕ → Game) → List ℕ → ℕ × ℕ → ℕ × ℕ
count_games at [] n = n
count_games at (g ∷ gs) (games, open_games) =
    count_games at gs
      (suc games, if game_state_eq (at g).state connectable then suc open_games else open_games)

-- Server.Status
unfoldable pub status : Server → ServerStatus
unfolding count_users count_games
status s =
    let (users, in_games) = count_users s.client_at s.clients (0, 0) in
    let (games, open_games) = count_games s.game_at s.games (0, 0) in
    record {
      n_clients = users;
      n_clients_in_games = in_games;
      n_games = games;
      n_open_games = open_games;
    }

-- How many of a list pass a test.
unfoldable pub how_many : (ℕ → Bool) → List ℕ → ℕ
how_many f [] = 0
how_many f (x ∷ xs) = if f x then suc (how_many f xs) else how_many f xs

-- A player who is connected, and one who is in a game besides.
abbrev pub is_online : (ℕ → Client) → ℕ → Bool
is_online at p = is_connected (at p).state && not (is_irc (at p).permissions)

abbrev pub is_playing : (ℕ → Client) → ℕ → Bool
is_playing at p = is_online at p && is_some (at p).game

-- A connected user of IRC.
abbrev pub is_on_irc : (ℕ → Client) → ℕ → Bool
is_on_irc at p = is_connected (at p).state && is_irc (at p).permissions

abbrev pub is_open : (ℕ → Game) → ℕ → Bool
is_open at g = game_state_eq (at g).state connectable

count_users_eq :
    (at : ℕ → Client) (ps : List ℕ) (users in_games : ℕ)
    → let r = count_users at ps (users, in_games) in
      (r.0 ≡ users + how_many (is_online at) ps) × (r.1 ≡ in_games + how_many (is_playing at) ps)
unfolding count_users how_many
count_users_eq at [] users in_games = (omega arith, omega arith)
count_users_eq at (p ∷ ps) users in_games = elim (Bool-cases (is_online at p)) [
  | inr off ↦ rw (count_users, off) (count_users_eq at ps users in_games)
  | inl on ↦ elim (Bool-cases (is_some (at p).game)) [
    | inl g ↦
        let r = count_users_eq at ps (suc users) (suc in_games) in
        rw (count_users, on, g) (omega (arith, r.0), omega (arith, r.1))
    | inr g ↦
        let r = count_users_eq at ps (suc users) in_games in
        rw (count_users, on, g) (omega (arith, r.0), r.1)
  ]
]

count_games_eq :
    (at : ℕ → Game) (gs : List ℕ) (games open_games : ℕ)
    → let r = count_games at gs (games, open_games) in
      (r.0 ≡ games + length gs) × (r.1 ≡ open_games + how_many (is_open at) gs)
unfolding count_games how_many
count_games_eq at [] games open_games = (omega arith, omega arith)
count_games_eq at (g ∷ gs) games open_games = elim (Bool-cases (is_open at g)) [
  | inl e ↦
      let r = count_games_eq at gs (suc games) (suc open_games) in
      rw (count_games, e) (omega (arith, r.0), omega (arith, r.1))
  | inr e ↦
      let r = count_games_eq at gs (suc games) open_games in
      rw (count_games, e) (omega (arith, r.0), r.1)
]

-- The connected clients are the players and the users of IRC.
online_or_irc :
    (at : ℕ → Client) (ps : List ℕ)
    → how_many (is_online at) ps + how_many (is_on_irc at) ps ≡ length (active_clients at ps)
unfolding how_many active_clients
online_or_irc at [] = refl
online_or_irc at (p ∷ ps) = elim (Bool-cases (is_connected (at p).state)) [
  | inr off ↦ rw off (online_or_irc at ps)
  | inl on ↦ elim (Bool-cases (is_irc (at p).permissions)) [
    | inl i ↦ rw (on, i) (omega (arith, online_or_irc at ps))
    | inr i ↦ rw (on, i) (omega (arith, online_or_irc at ps))
  ]
]

-- The numbers of the status: the clients, with the connected users of IRC, are the connected clients of the
-- list; the clients in games are the connected players who are in a game; the games are those of the list,
-- and the open ones are those of them that are connectable.
pub status_counts :
    (s : Server)
    → ((status s).n_clients + how_many (is_on_irc s.client_at) s.clients ≡ nr_active_clients s)
      × ((status s).n_clients_in_games ≡ how_many (is_playing s.client_at) s.clients)
      × ((status s).n_games ≡ length s.games)
      × ((status s).n_open_games ≡ how_many (is_open s.game_at) s.games)
unfolding status nr_active_clients
status_counts s =
    let users = count_users_eq s.client_at s.clients 0 0 in
    let games = count_games_eq s.game_at s.games 0 0 in
    (
      omega (arith, users.0, online_or_irc s.client_at s.clients),
      omega (arith, users.1),
      omega (arith, games.0),
      omega (arith, games.1),
    )
