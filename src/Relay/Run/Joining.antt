-- ===== src/Relay/Run/Joining.antt =====
-- wlnr/game.go: a newcomer who joins a game leaves the players of all games in order.
use widelands_metaserver.Base.{
  ℕ, ◌≤◌, ◌<◌, false, List, [], ◌∷◌, ◌++◌, ◌==◌, ◌≡◌, refl, sym, subst, All, arith, Bool-cases,
  Option-cases, inl, inr, ◌⊎◌, ==_refl, ==_iff, leb, Bytes, str, bytes_eq,
}
use widelands_metaserver.Relay.State.{
  Task, new_connection, ping_loop, host_messages, client_messages, Server, put_client, put_game,
  send_command,
}
use widelands_metaserver.Relay.Games.{contains, send_welcome, add_host, add_player, add_client}
use widelands_metaserver.Relay.Messages.Between.{Between-same}
use widelands_metaserver.Relay.Messages.Ids.{ids, IdsInOrder, add_client-InOrder}
use widelands_metaserver.Relay.Run.Calm.{Calm, Calm-disconnect}
use widelands_metaserver.Relay.Run.Players.{
  Apart, Waits, Other, Others, Once, PlayersFine, Calm-PlayersFine, MayJoin, All-each,
}

-- A loop of a game.
abbrev IsLoop : Task → Type 0
IsLoop (new_connection c) = ⊥
IsLoop (ping_loop c) = Unit
IsLoop (host_messages g) = Unit
IsLoop (client_messages g c) = Unit

-- A client that is accepted as the host or as a player of a game.
record Joined (c g : ℕ) (s t : Server) : Type 0 where
  next_game : t.next_game ≡ s.next_game
  next_client : t.next_client ≡ s.next_client
  loop : Task
  is_loop : IsLoop loop
  tasks : t.tasks ≡ loop ∷ s.tasks
  same_ids : (q : ℕ) → (q == c) ≡ false → ids t q ≡ ids s q
  others : (q : ℕ) → (q == g) ≡ false → (t.game_at q).clients ≡ (s.game_at q).clients
  next_id : (q : ℕ) → (q == g) ≡ false → (t.game_at q).next_client_id ≡ (s.game_at q).next_client_id
  adds :
      (d : ℕ)
      → (d == c) ≡ false
      → contains d (s.game_at g).clients ≡ false
      → contains d (t.game_at g).clients ≡ false

absent-push :
    (d c : ℕ) (xs : List ℕ)
    → (d == c) ≡ false
    → contains d xs ≡ false
    → contains d (xs ++ (c ∷ [])) ≡ false
unfolding contains
absent-push d c [] ne h = ground arith
absent-push d c (x ∷ xs) ne h = ground (arith, absent-push d c xs)

add_host-joins :
    (g c version : ℕ) (password : Bytes) (s : Server)
    → Calm s (add_host g c version password s) ⊎ Joined c g s (add_host g c version password s)
unfolding add_host send_welcome send_command put_game put_client
add_host-joins g c version password s =
    elim (Bool-cases (bytes_eq password (s.game_at g).host_password)) [
      | inr e ↦ rw e (inl (Calm-disconnect c (str "NO_HOST") s))
      | inl e ↦ rw e (
          inr (record {
            next_game = refl;
            next_client = refl;
            loop = host_messages g;
            is_loop = tt;
            tasks = refl;
            same_ids = λ q ne. rw (ids, ne) refl;
            others = λ q ne. rw ne refl;
            next_id = λ q ne. rw ne refl;
            adds = λ d ne h. rw (==_refl g) h;
          }))
    ]

add_player-joins :
    (g h c version : ℕ) (s : Server)
    → Calm s (add_player g h c version s) ⊎ Joined c g s (add_player g h c version s)
unfolding add_player send_welcome send_command put_game put_client
add_player-joins g h c version s = elim (Bool-cases ((s.game_at g).protocol_version == version)) [
  | inr e ↦ rw e (inl (Calm-disconnect c (str "WRONG_VERSION") s))
  | inl e ↦ elim (Bool-cases (leb 250 (s.game_at g).next_client_id)) [
    | inl f ↦ rw (e, f) (inl (Calm-disconnect c (str "NORMAL") s))
    | inr f ↦
        rw (e, f)
          (inr (record {
            next_game = refl;
            next_client = refl;
            loop = client_messages g c;
            is_loop = tt;
            tasks = refl;
            same_ids = λ q ne. rw (ids, ne) refl;
            others = λ q ne. rw ne refl;
            next_id = λ q ne. rw ne refl;
            adds = λ d ne x. rw (==_refl g) (absent-push d c (s.game_at g).clients ne x);
          }))
  ]
]

add_client-joins :
    (g c version : ℕ) (password : Bytes) (s : Server)
    → Calm s (add_client g c version password s) ⊎ Joined c g s (add_client g c version password s)
unfolding add_client
add_client-joins g c version password s = elim (Option-cases (s.game_at g).host) [
  | inl e ↦ rw (e, add_client) (add_host-joins g c version password s)
  | inr (h, e) ↦ rw (e, add_client) (add_player-joins g h c version s)
]

module _ (c g : ℕ) (s t : Server) (k : Joined c g s t) (may : MayJoin c s) (w : PlayersFine s) where
  ordered_after : IdsInOrder g t → (q : ℕ) → q < t.next_game → IdsInOrder q t
  ordered_after here q l = elim (Bool-cases (q == g)) [
    | inl e ↦ subst (λ x. IdsInOrder x t) (sym ((==_iff q g).0 e)) here
    | inr e ↦
        let l' : q < s.next_game = subst (λ n. q < n) k.next_game l in
        let b = w.ordered q l' in
        rw (k.others q e, k.next_id q e)
          (Between-same (ids s) (ids t) c 2 _ _ (may.1 q l') (λ p ne. k.same_ids p ne) b.0, b.1)
  ]

  Apart-after : (d : ℕ) → (d == c) ≡ false → Apart d s → Apart d t
  Apart-after d ne h q l =
      let l' : q < s.next_game = subst (λ n. q < n) k.next_game l in
      elim (Bool-cases (q == g)) [
        | inl e ↦
            let same = (==_iff q g).0 e in
            subst (λ x. contains d (t.game_at x).clients ≡ false) (sym same)
              (k.adds d ne (subst (λ x. contains d (s.game_at x).clients ≡ false) same (h q l')))
        | inr e ↦ rw (k.others q e) (h q l')
      ]

  Waits-after : (x : Task) → Waits s x × Other c x → Waits t x
  Waits-after (new_connection d) h =
      (subst (λ n. d < n) (sym k.next_client) h.0.0, Apart-after d h.1 h.0.1)
  Waits-after (ping_loop d) h = tt
  Waits-after (host_messages q) h = tt
  Waits-after (client_messages q d) h = tt

  loop-Waits : (x : Task) → IsLoop x → Waits t x
  loop-Waits (ping_loop d) h = tt
  loop-Waits (host_messages q) h = tt
  loop-Waits (client_messages q d) h = tt
  loop-Waits (new_connection d) h = absurd h

  loop-Others : (x : Task) (ts : List Task) → IsLoop x → Others x ts
  loop-Others (ping_loop d) ts h = tt
  loop-Others (host_messages q) ts h = tt
  loop-Others (client_messages q d) ts h = tt
  loop-Others (new_connection d) ts h = absurd h

  Joined-PlayersFine : IdsInOrder g t → PlayersFine t
  Joined-PlayersFine here = record {
    ordered = ordered_after here;
    unborn = λ d l.
        let l' : s.next_client ≤ d = subst (λ n. n ≤ d) k.next_client l in
        let ne : (d == c) ≡ false = later d l' in Apart-after d ne (w.unborn d l');
    waiting = subst (All (Waits t)) (sym k.tasks) (
      loop-Waits k.loop k.is_loop,
      All-each (λ x. Waits s x × Other c x) (Waits t) s.tasks Waits-after
          (both s.tasks w.waiting may.2),
    );
    once = subst Once (sym k.tasks) (loop-Others k.loop s.tasks k.is_loop, w.once);
  }
    where
      later : (d : ℕ) → s.next_client ≤ d → (d == c) ≡ false
      later d l = let young = may.0 in ground (arith, young)

      both :
          (ts : List Task)
          → All (Waits s) ts
          → All (Other c) ts
          → All (λ x. Waits s x × Other c x) ts
      both [] h o = tt
      both (x ∷ xs) h o = ((h.0, o.0), both xs h.1 o.1)

-- A newcomer whose goroutine is the only one for it, accepted or turned away.
pub add_client-PlayersFine :
    (g c version : ℕ) (password : Bytes) (s : Server)
    → g < s.next_game
    → MayJoin c s
    → PlayersFine s
    → PlayersFine (add_client g c version password s)
add_client-PlayersFine g c version password s l may w =
    let t = add_client g c version password s in
    elim (add_client-joins g c version password s) [
      | inl k ↦ Calm-PlayersFine s t k w
      | inr k ↦
          Joined-PlayersFine c g s t k may w
            (add_client-InOrder g c version password s (may.1 g l) (w.ordered g l))
    ]
