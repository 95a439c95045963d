-- ===== src/Metaserver/Games/Names.antt =====
-- wlms/server.go, game.go and client.go: no two listed games have one name.
use widelands_metaserver.Base.{
  ℕ, suc, ◌<◌, Bool, true, false, not, none, some, Option, List, [], ◌∷◌, ◌++◌, ◌==◌, if◌then◌else◌,
  is_some, Bytes, bytes_eq, ◌≡◌, refl, sym, ap, ◌∙◌, subst, arith, Option-cases, Bool-cases, inl,
  inr, ==_refl, All, All-append, find_key, Distinct, Distinct-push, Distinct-same, find_key-same,
  All-below, if_cases,
}
use mathlib.Core.Path.{fun_ext}
use widelands_metaserver.Metaserver.World.{
  GameState, initial_setup, ping_cycle, Game, Server, put_game,
}
use widelands_metaserver.Metaserver.Clients.{contains, remove_first, games_update, clients_update}
use widelands_metaserver.Metaserver.Games.{
  game_state_eq, pointer_eq, add_game, remove_game, find_game, has_game, set_game_state, get_player,
  add_player, remove_player, leave_game, join_game, set_game, new_game,
}
use widelands_metaserver.Metaserver.Games.Frame.{
  SameGames, SameGames-trans, broadcast-SameGames, put_client-SameGames, broadcast_to_irc-SameGames,
}

abbrev pub names : Server → ℕ → Bytes
names s g = (s.game_at g).name

-- The names of the listed games are different, and the next game is none of them.
pub record GamesFine (s : Server) : Type 0 where
  pub distinct : Distinct (names s) s.games
  pub fresh : All (λ g. g < s.next_game) s.games

pub Fine-same : {s t : Server} → SameGames s t → GamesFine s → GamesFine t
Fine-same {s} {t} k w = record {
  distinct = rw (k.games, ap {B = ℕ → Bytes} (λ f g. (f g).name) k.game_at) w.distinct;
  fresh = rw (k.games, k.next_game) w.fresh;
}

-- A write to a game that leaves its name.
pub Fine-put_game :
    (g : ℕ) (v : Game) (s : Server) → v.name ≡ names s g → GamesFine s → GamesFine (put_game g v s)
unfolding put_game
Fine-put_game g v s e w =
    let same : names (put_game g v s) ≡ names s = fun_ext λ q. ground arith in
    record { distinct = subst (λ f. Distinct f s.games) (sym same) w.distinct; fresh = w.fresh }

pub names-put_game : (g : ℕ) (v : Game) (s : Server) → names (put_game g v s) g ≡ v.name
unfolding put_game
names-put_game g v s = rw (names, ==_refl g) refl

names_other :
    (k g : ℕ) (v : Game) (s : Server)
    → g < k
    → names (put_game k v (record s { next_game = suc k })) g ≡ names s g
unfolding put_game
names_other k g v s l = let ne : (g == k) ≡ false = ground arith in rw (names, ne) refl

find_key-remove :
    (key : ℕ → Bytes) (n : Bytes) (q : ℕ) (gs : List ℕ)
    → find_key key n gs ≡ none
    → find_key key n (remove_first q gs) ≡ none
unfolding find_key remove_first
find_key-remove key n q [] h = h
find_key-remove key n q (g ∷ gs) h = ground (arith, find_key-remove key n q gs)

Distinct-remove :
    (key : ℕ → Bytes) (q : ℕ) (gs : List ℕ) → Distinct key gs → Distinct key (remove_first q gs)
unfolding remove_first
Distinct-remove key q [] u = tt
Distinct-remove key q (g ∷ gs) u = elim (Bool-cases (g == q)) [
  | inl e ↦ rw e u.1
  | inr e ↦ rw e (find_key-remove key (key g) q gs u.0, Distinct-remove key q gs u.1)
]

All-remove : (k q : ℕ) (gs : List ℕ) → All (λ g. g < k) gs → All (λ g. g < k) (remove_first q gs)
unfolding remove_first
All-remove k q [] h = tt
All-remove k q (g ∷ gs) h = elim (Bool-cases (g == q)) [
  | inl e ↦ rw e h.1
  | inr e ↦ rw e (h.0, All-remove k q gs h.1)
]

pub Fine-remove_game : (g : ℕ) (s : Server) → GamesFine s → GamesFine (remove_game g s)
unfolding remove_game
Fine-remove_game g s w =
    let t = record s { games = remove_first g s.games } in
    let out : GamesFine t = record {
      distinct = Distinct-remove (names s) g s.games w.distinct;
      fresh = All-remove s.next_game g s.games w.fresh;
    } in
    if_cases GamesFine (contains g s.games)
      (λ _. Fine-same (broadcast-SameGames games_update t) out) (λ _. w)

pub Fine-set_game_state :
    (g : ℕ) (st : GameState) (s : Server) → GamesFine s → GamesFine (set_game_state g st s)
unfolding set_game_state
Fine-set_game_state g st s w =
    if_cases GamesFine (game_state_eq st (s.game_at g).state) (λ _. w)
      (λ _. Fine-same (broadcast-SameGames games_update _) (Fine-put_game g _ s refl w))

Fine-add_player : (g : ℕ) (n : Bytes) (s : Server) → GamesFine s → GamesFine (add_player g n s)
unfolding add_player
Fine-add_player g n s w = Fine-put_game g _ s refl w

pub Fine-remove_player :
    (g : ℕ) (n : Bytes) (s : Server) → GamesFine s → GamesFine (remove_player g n s)
unfolding remove_player
Fine-remove_player g n s w =
    let touched = record (s.game_at g) { time_last_activity = s.now } in
    let t = put_game g touched s in
    let w' : GamesFine t = Fine-put_game g touched s refl w in
    let mine : names t g ≡ (s.game_at g).name = names-put_game g touched s in
    if_cases GamesFine (bytes_eq n (s.game_at g).host)
      (λ _.
        if_cases GamesFine (not (s.game_at g).uses_relay) (λ _. Fine-remove_game g t w') (λ _. w'))
      λ _.
        if_cases GamesFine (is_some (get_player n (s.game_at g).players))
          (λ _. Fine-put_game g _ t (sym mine) w') (λ _. w')

leave_game-Fine : (p : ℕ) (s : Server) → GamesFine s → GamesFine (leave_game p s)
unfolding leave_game
leave_game-Fine p s w = elim (Option-cases (s.client_at p).game) [
  | inl e ↦ rw (e, leave_game) w
  | inr (g, e) ↦
      rw (e, leave_game)
        (Fine-same (put_client-SameGames p _ _)
          (Fine-remove_player g (s.client_at p).user_name s w))
]

join_game-Fine :
    (p : ℕ) (game : Option ℕ) (s : Server) → GamesFine s → GamesFine (join_game p game s)
unfolding join_game
join_game-Fine p none s w = w
join_game-Fine p (some g) s w = Fine-add_player g _ _ (Fine-same (put_client-SameGames p _ s) w)

pub set_game-Fine :
    (p : ℕ) (game : Option ℕ) (s : Server) → GamesFine s → GamesFine (set_game p game s)
unfolding set_game
set_game-Fine p game s w =
    if_cases GamesFine (pointer_eq (s.client_at p).game game) (λ _. w)
      (λ _.
        Fine-same (broadcast-SameGames clients_update _)
          (join_game-Fine p game _ (leave_game-Fine p s w)))

find_game_eq :
    (at : ℕ → Game) (n : Bytes) (gs : List ℕ) → find_game at n gs ≡ find_key (λ g. (at g).name) n gs
unfolding find_game find_key
find_game_eq at n [] = refl
find_game_eq at n (g ∷ gs) =
    ap (λ o. if bytes_eq (at g).name n then some g else o) (find_game_eq at n gs)

-- A game under a name that was free.
listed-Fine :
    (v : Game) (s : Server)
    → GamesFine s
    → has_game v.name s ≡ none
    → let k = s.next_game in
      GamesFine
        (record (put_game k v (record s { next_game = suc k })) { games = s.games ++ (k ∷ []) })
unfolding put_game has_game
listed-Fine v s w free =
    let k = s.next_game in
    let t = put_game k v (record s { next_game = suc k }) in
    let mine : names t k ≡ v.name = names-put_game k v (record s { next_game = suc k }) in
    let others : (g : ℕ) → g < k → names t g ≡ names s g = λ g l. names_other k g v s l in
    let absent : find_key (names t) v.name s.games ≡ none =
      find_key-same (names s) (names t) k v.name s.games w.fresh others
      ∙ sym (find_game_eq s.game_at v.name s.games)
      ∙ free in
    record {
      distinct =
          Distinct-push (names t) s.games k
            (Distinct-same (names s) (names t) k s.games w.fresh others w.distinct)
            (ap (λ n. find_key (names t) n s.games) mine ∙ absent);
      fresh =
          All-append (λ g. g < suc k) s.games (k ∷ []) (All-below k s.games w.fresh)
            (omega arith, tt);
    }

add_game-Fine :
    (g : ℕ) (s : Server)
    → GamesFine (record s { games = s.games ++ (g ∷ []) })
    → GamesFine (add_game g s)
unfolding add_game
add_game-Fine g s w =
    Fine-same
      (SameGames-trans (broadcast-SameGames games_update (record s { games = s.games ++ (g ∷ []) }))
        (broadcast_to_irc-SameGames _ _))
      w

-- A new task for the state.
Fine-task :
    (k : ℕ) (b : Bool) (s : Server)
    → GamesFine s
    → GamesFine (if b then record s { tasks = ping_cycle k ∷ s.tasks } else s)
Fine-task k true s w = record { distinct = w.distinct; fresh = w.fresh }
Fine-task k false s w = w

pub new_game-Fine :
    (host build_id name : Bytes) (relayed : Bool) (s : Server)
    → GamesFine s
    → has_game name s ≡ none
    → GamesFine (new_game host build_id name relayed s).1
unfolding new_game put_game
new_game-Fine host build_id name relayed s w free =
    let v : Game = record {
      host = host;
      players = [];
      name = name;
      build_id = build_id;
      state = initial_setup;
      uses_relay = relayed;
      time_last_activity = s.now;
    } in
    Fine-task s.next_game (not relayed) _ (add_game-Fine s.next_game _ (listed-Fine v s w free))
