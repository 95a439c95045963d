-- ===== src/Relay/Run/Calm.antt =====
-- wlnr/game.go: what leaves the players of the games as they are, or takes some of them away.
use widelands_metaserver.Base.{
  ℕ, false, List, [], ◌∷◌, ◌==◌, ◌≡◌, refl, ◌∙◌, sym, ap, subst, Bool-cases, inl, inr, ==_iff,
  arith, Bytes,
}
use widelands_metaserver.Relay.State.{
  Client, Game, Server, put_client, put_game, crash, send_command, disconnect,
}
use widelands_metaserver.Relay.Games.{contains, remove_first}
use widelands_metaserver.Relay.Messages.Between.{Between, Between-remove}
use widelands_metaserver.Relay.Messages.Ids.{ids}

-- Some of a list of players, in their order.
pub record Sub (xs ys : List ℕ) : Type 0 where
  pub order : (id : ℕ → ℕ) (lo hi : ℕ) → Between id lo ys hi → Between id lo xs hi
  pub absent : (c : ℕ) → contains c ys ≡ false → contains c xs ≡ false

pub Sub-refl : (xs : List ℕ) → Sub xs xs
Sub-refl xs = record { order = λ _ _ _ b. b; absent = λ _ h. h }

pub Sub-same : (xs ys : List ℕ) → xs ≡ ys → Sub xs ys
Sub-same xs ys e = subst (Sub xs) e (Sub-refl xs)

pub absent-remove_first :
    (c q : ℕ) (xs : List ℕ) → contains c xs ≡ false → contains c (remove_first q xs) ≡ false
unfolding contains remove_first
absent-remove_first c q [] h = h
absent-remove_first c q (x ∷ xs) h = ground (arith, absent-remove_first c q xs)

pub Sub-remove_first : (q : ℕ) (xs : List ℕ) → Sub (remove_first q xs) xs
Sub-remove_first q xs = record {
  order = λ id lo hi b. Between-remove id q lo xs hi b;
  absent = λ c h. absent-remove_first c q xs h;
}

pub record Calm (s t : Server) : Type 0 where
  pub next_game : t.next_game ≡ s.next_game
  pub next_client : t.next_client ≡ s.next_client
  pub tasks : t.tasks ≡ s.tasks
  pub same_ids : (q : ℕ) → ids t q ≡ ids s q
  pub next_id : (g : ℕ) → (t.game_at g).next_client_id ≡ (s.game_at g).next_client_id
  pub fewer : (g : ℕ) → Sub (t.game_at g).clients (s.game_at g).clients

pub Calm-refl : (s : Server) → Calm s s
Calm-refl s = record {
  next_game = refl;
  next_client = refl;
  tasks = refl;
  same_ids = λ _. refl;
  next_id = λ _. refl;
  fewer = λ g. Sub-refl (s.game_at g).clients;
}

pub Calm-trans : (s t u : Server) → Calm s t → Calm t u → Calm s u
Calm-trans s t u a b = record {
  next_game = b.next_game ∙ a.next_game;
  next_client = b.next_client ∙ a.next_client;
  tasks = b.tasks ∙ a.tasks;
  same_ids = λ q. b.same_ids q ∙ a.same_ids q;
  next_id = λ g. b.next_id g ∙ a.next_id g;
  fewer = λ g. record {
    order = λ id lo hi x. (b.fewer g).order id lo hi ((a.fewer g).order id lo hi x);
    absent = λ c h. (b.fewer g).absent c ((a.fewer g).absent c h);
  };
}

-- A change of the games that leaves clients, tasks and pointers.
pub Calm-games :
    (s t : Server)
    → t.next_game ≡ s.next_game
    → t.next_client ≡ s.next_client
    → t.tasks ≡ s.tasks
    → t.client_at ≡ s.client_at
    → t.game_at ≡ s.game_at
    → Calm s t
Calm-games s t n c k a g = record {
  next_game = n;
  next_client = c;
  tasks = k;
  same_ids = λ q. ap (λ f. (f q).id) a;
  next_id = λ q. ap (λ f. (f q).next_client_id) g;
  fewer = λ q. Sub-same _ _ (ap (λ f. (f q).clients) g);
}

pub Calm-send : (c : ℕ) (cmd : Bytes) (s : Server) → Calm s (send_command c cmd s)
unfolding send_command
Calm-send c cmd s = Calm-games s _ refl refl refl refl refl

pub Calm-crash : (s : Server) → Calm s (crash s)
unfolding crash
Calm-crash s = Calm-games s _ refl refl refl refl refl

pub Calm-put_client :
    (c : ℕ) (v : Client) (s : Server) → v.id ≡ (s.client_at c).id → Calm s (put_client c v s)
unfolding put_client
Calm-put_client c v s e = record {
  next_game = refl;
  next_client = refl;
  tasks = refl;
  same_ids = λ q. elim (Bool-cases (q == c)) [
    | inl k ↦ rw (ids, k) (e ∙ ap (λ x. (s.client_at x).id) (sym ((==_iff q c).0 k)))
    | inr k ↦ rw (ids, k) refl
  ];
  next_id = λ _. refl;
  fewer = λ g. Sub-refl (s.game_at g).clients;
}

pub Calm-disconnect : (c : ℕ) (reason : Bytes) (s : Server) → Calm s (disconnect c reason s)
unfolding disconnect send_command put_client
Calm-disconnect c reason s = elim (Bool-cases (s.client_at c).is_open) [
  | inr e ↦ rw e (Calm-refl s)
  | inl e ↦ rw e (record {
    next_game = refl;
    next_client = refl;
    tasks = refl;
    same_ids = λ q. ground arith;
    next_id = λ _. refl;
    fewer = λ g. Sub-refl (s.game_at g).clients;
  })
]

pub Calm-put_game :
    (g : ℕ) (v : Game) (s : Server)
    → v.next_client_id ≡ (s.game_at g).next_client_id
    → Sub v.clients (s.game_at g).clients
    → Calm s (put_game g v s)
unfolding put_game
Calm-put_game g v s n m = record {
  next_game = refl;
  next_client = refl;
  tasks = refl;
  same_ids = λ _. refl;
  next_id = λ q. elim (Bool-cases (q == g)) [
    | inl e ↦ rw e (n ∙ ap (λ x. (s.game_at x).next_client_id) (sym ((==_iff q g).0 e)))
    | inr e ↦ rw e refl
  ];
  fewer = λ q. elim (Bool-cases (q == g)) [
    | inl e ↦ rw e (subst (λ x. Sub v.clients (s.game_at x).clients) (sym ((==_iff q g).0 e)) m)
    | inr e ↦ rw e (Sub-refl (s.game_at q).clients)
  ];
}
