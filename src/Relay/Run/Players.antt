-- ===== src/Relay/Run/Players.antt =====
-- wlnr/game.go and server.go: the players of all games, and the newcomers who are in none yet.
use widelands_metaserver.Base.{
  ℕ, zero, suc, ◌≤◌, ◌<◌, false, none, some, List, [], ◌∷◌, ◌==◌, ◌≡◌, sym, subst, All, arith,
}
use widelands_metaserver.Relay.State.{
  Task, new_connection, ping_loop, host_messages, client_messages, Server,
}
use widelands_metaserver.Relay.Games.{contains}
use widelands_metaserver.Relay.Messages.Between.{Between}
use widelands_metaserver.Relay.Messages.Ids.{ids, IdsInOrder}
use widelands_metaserver.Relay.Run.{pick, without}
use widelands_metaserver.Relay.Run.Calm.{Calm}

-- A client that plays in no game.
abbrev pub Apart : ℕ → Server → Type 0
Apart c s = (g : ℕ) → g < s.next_game → contains c (s.game_at g).clients ≡ false

-- The client of a goroutine for a new connection is in no game.
abbrev pub Waits : Server → Task → Type 0
Waits s (new_connection c) = (c < s.next_client) × Apart c s
Waits s (ping_loop c) = Unit
Waits s (host_messages g) = Unit
Waits s (client_messages g c) = Unit

-- A goroutine that is not for the new connection of a client.
abbrev pub Other : ℕ → Task → Type 0
Other c (new_connection d) = (d == c) ≡ false
Other c (ping_loop d) = Unit
Other c (host_messages g) = Unit
Other c (client_messages g d) = Unit

abbrev pub Others : Task → List Task → Type 0
Others (new_connection c) ts = All (Other c) ts
Others (ping_loop c) ts = Unit
Others (host_messages g) ts = Unit
Others (client_messages g c) ts = Unit

-- Each new connection has one goroutine.
abbrev pub Once : List Task → Type 0
Once [] = Unit
Once (t ∷ ts) = Others t ts × Once ts

-- In every game the ids of the players are in order; clients that do not exist yet play nowhere; a client
-- whose connection is new plays nowhere, and is dealt with once.
pub record PlayersFine (s : Server) : Type 0 where
  pub ordered : (g : ℕ) → g < s.next_game → IdsInOrder g s
  pub unborn : (c : ℕ) → s.next_client ≤ c → Apart c s
  pub waiting : All (Waits s) s.tasks
  pub once : Once s.tasks

IdsInOrder-Calm : (g : ℕ) (s t : Server) → Calm s t → IdsInOrder g s → IdsInOrder g t
IdsInOrder-Calm g s t k b =
    let f = (k.fewer g).order (ids s) 2 (s.game_at g).next_client_id b.0 in
    (
      subst (λ n. Between (ids t) 2 (t.game_at g).clients n) (sym (k.next_id g))
          (same_ids_order (ids s) (ids t) 2 _ _ k.same_ids f),
      subst (λ n. n ≤ 250) (sym (k.next_id g)) b.1,
    )
  where
    same_ids_order :
        (id id' : ℕ → ℕ) (lo : ℕ) (cs : List ℕ) (hi : ℕ)
        → ((q : ℕ) → id' q ≡ id q)
        → Between id lo cs hi
        → Between id' lo cs hi
    same_ids_order id id' lo [] hi h b = b
    same_ids_order id id' lo (c ∷ cs) hi h b =
        rw (h c) (b.0, same_ids_order id id' (suc (id c)) cs hi h b.1)

Apart-Calm : (c : ℕ) (s t : Server) → Calm s t → Apart c s → Apart c t
Apart-Calm c s t k h g l = (k.fewer g).absent c (h g (subst (λ n. g < n) k.next_game l))

Waits-Calm : (s t : Server) → Calm s t → (w : Task) → Waits s w → Waits t w
Waits-Calm s t k (new_connection c) h =
    (subst (λ n. c < n) (sym k.next_client) h.0, Apart-Calm c s t k h.1)
Waits-Calm s t k (ping_loop c) h = tt
Waits-Calm s t k (host_messages g) h = tt
Waits-Calm s t k (client_messages g c) h = tt

pub All-each {ℓ κ μ} :
    {A : Type ℓ} (P : A → Type κ) (Q : A → Type μ) (xs : List A)
    → ((x : A) → P x → Q x)
    → All P xs
    → All Q xs
All-each P Q [] f h = tt
All-each P Q (x ∷ xs) f h = (f x h.0, All-each P Q xs f h.1)

pub Calm-PlayersFine : (s t : Server) → Calm s t → PlayersFine s → PlayersFine t
Calm-PlayersFine s t k w = record {
  ordered = λ g l. IdsInOrder-Calm g s t k (w.ordered g (subst (λ n. g < n) k.next_game l));
  unborn = λ c l. Apart-Calm c s t k (w.unborn c (subst (λ n. n ≤ c) k.next_client l));
  waiting =
      subst (All (Waits t)) (sym k.tasks)
        (All-each (Waits s) _ s.tasks (Waits-Calm s t k) w.waiting);
  once = subst Once (sym k.tasks) w.once;
}

-- A newcomer who may join a game: its goroutine has left the list.
abbrev pub MayJoin : ℕ → Server → Type 0
MayJoin c s = (c < s.next_client) × Apart c s × All (Other c) s.tasks

pub MayJoin-Calm : (c : ℕ) (s t : Server) → Calm s t → MayJoin c s → MayJoin c t
MayJoin-Calm c s t k (l, h, o) = (
  subst (λ n. c < n) (sym k.next_client) l,
  Apart-Calm c s t k h,
  subst (All (Other c)) (sym k.tasks) o,
)

-- The goroutines without one of them.
pub All-without {ℓ κ} :
    {A : Type ℓ} (P : A → Type κ) (n : ℕ) (xs : List A) → All P xs → All P (without n xs)
All-without P n [] h = h
All-without P zero (x ∷ xs) h = h.1
All-without P (suc n) (x ∷ xs) h = (h.0, All-without P n xs h.1)

Others-without : (t : Task) (n : ℕ) (ts : List Task) → Others t ts → Others t (without n ts)
Others-without (new_connection c) n ts h = All-without (Other c) n ts h
Others-without (ping_loop c) n ts h = tt
Others-without (host_messages g) n ts h = tt
Others-without (client_messages g c) n ts h = tt

pub Once-without : (n : ℕ) (ts : List Task) → Once ts → Once (without n ts)
Once-without n [] h = h
Once-without zero (t ∷ ts) h = h.1
Once-without (suc n) (t ∷ ts) h = (Others-without t n ts h.0, Once-without n ts h.1)

-- What holds of all, and what is picked.
the_picked {ℓ κ} : {A : Type ℓ} (P : A → Type κ) (x y : A) → some x ≡ some y → P x → P y
the_picked P x y e h = subst (λ o. elim o [ none ↦ P x | some z ↦ P z ]) e h

pub All-pick {ℓ κ} :
    {A : Type ℓ} (P : A → Type κ) (n : ℕ) (xs : List A) (x : A)
    → pick n xs ≡ some x
    → All P xs
    → P x
All-pick P n [] x e h = cc
All-pick P zero (y ∷ ys) x e h = the_picked P y x e h.0
All-pick P (suc n) (y ∷ ys) x e h = All-pick P n ys x e h.1

other_swap : (c d : ℕ) → (c == d) ≡ false → (d == c) ≡ false
other_swap c d h = ground arith

Other-head :
    (c n : ℕ) (t : Task) (ts : List Task)
    → pick n ts ≡ some (new_connection c)
    → Others t ts
    → Other c t
Other-head c n (new_connection d) ts e h =
    other_swap c d (All-pick (Other d) n ts (new_connection c) e h)
Other-head c n (ping_loop d) ts e h = tt
Other-head c n (host_messages g) ts e h = tt
Other-head c n (client_messages g d) ts e h = tt

-- The goroutine of a new connection is the only one for it.
pub picked-Once :
    (c n : ℕ) (ts : List Task)
    → pick n ts ≡ some (new_connection c)
    → Once ts
    → All (Other c) (without n ts)
picked-Once c n [] e h = tt
picked-Once c zero (t ∷ ts) e h = the_picked (λ x. Others x ts) t (new_connection c) e h.0
picked-Once c (suc n) (t ∷ ts) e h = (Other-head c n t ts e h.0, picked-Once c n ts e h.1)
