-- ===== src/Metaserver/Clients/Replacing.antt =====
-- wlms/server.go: which clients FindClientsToReplace finds.
use widelands_metaserver.Base.{
  ℕ, Bool, true, false, not, ◌&&◌, ◌||◌, Option, none, some, List, [], ◌∷◌, ◌++◌, ◌==◌, ==_iff,
  if◌then◌else◌, is_some, Bytes, bytes_eq, ◌≡◌, refl, sym, ap, ◌∙◌, subst, arith, Bool-cases, inl,
  inr, if_cases,
}
use widelands_metaserver.Metaserver.World.{is_recently_disconnected, Client, Server}
use widelands_metaserver.Metaserver.Clients.{
  contains, candidates_loop, push_best, find_clients_to_replace,
}

-- The nonce is the client's, and no login waits for the client yet.
abbrev pub may_replace : (ℕ → Client) → Bytes → ℕ → Bool
may_replace at nonce q = not (is_some (at q).pending_login) && bytes_eq (at q).nonce nonce

abbrev has_name : (ℕ → Client) → Bytes → ℕ → Bool
has_name at n q = bytes_eq (at q).user_name n

contains-push : (q p : ℕ) (xs : List ℕ) → contains q (xs ++ (p ∷ [])) ≡ (contains q xs || (p == q))
unfolding contains
contains-push q p [] = ground arith
contains-push q p (x ∷ xs) = ground (arith, contains-push q p xs)

-- A client is put at either end of the list.
contains-either :
    (q p : ℕ) (b : Bool) (xs : List ℕ)
    → contains q (if b then p ∷ xs else xs ++ (p ∷ [])) ≡ (contains q xs || (p == q))
unfolding contains
contains-either q p true xs = ground arith
contains-either q p false xs = contains-push q p xs

contains-pushed :
    (q p : ℕ) (b first : Bool) (xs : List ℕ)
    → contains q (if b then (if first then p ∷ xs else xs ++ (p ∷ [])) else xs)
      ≡ (contains q xs || (b && (p == q)))
contains-pushed q p true first xs = contains-either q p first xs
contains-pushed q p false first xs = ground arith

regroup :
    (there here more m b : Bool)
    → (here ≡ true → b ≡ m)
    → ((there || (b && here)) || (more && m)) ≡ (there || ((here || more) && m))
regroup there true more m b same = rw (same refl) (ground arith)
regroup there false more m b same = ground arith

-- The clients of the wanted name are left to `best`.
loop_finds :
    (at : ℕ → Client) (nonce n : Bytes) (q : ℕ) (ps : List ℕ) (best : Option ℕ) (res : List ℕ)
    → has_name at n q ≡ false
    → contains q (candidates_loop at nonce n ps best res).1
      ≡ (contains q res || (contains q ps && may_replace at nonce q))
unfolding candidates_loop contains
loop_finds at nonce n q [] best res other = ground arith
loop_finds at nonce n q (p ∷ ps) best res other =
    let pushed = may_replace at nonce p && not (has_name at n p) in
    loop_finds at nonce n q ps _ _ other
    ∙ ap (λ b. b || (contains q ps && may_replace at nonce q))
        (contains-pushed q p pushed (is_recently_disconnected (at p).state) res)
    ∙ regroup (contains q res) (p == q) (contains q ps) (may_replace at nonce q) pushed (λ e.
      subst (λ x. (may_replace at nonce x && not (has_name at n x)) ≡ may_replace at nonce q)
        (sym ((==_iff p q).0 e)) (rw other (ground arith)))

-- `best` has the wanted name and the nonce, and no login waits for it.
abbrev IsBest : (ℕ → Client) → Bytes → Bytes → Option ℕ → Type 0
IsBest at nonce n none = Unit
IsBest at nonce n (some b) = (may_replace at nonce b ≡ true) × (has_name at n b ≡ true)

IsBest-next :
    (at : ℕ → Client) (nonce n : Bytes) (p : ℕ) (best : Option ℕ)
    → IsBest at nonce n best
    → IsBest at nonce n (if may_replace at nonce p && has_name at n p then some p else best)
IsBest-next at nonce n p best k =
    if_cases (IsBest at nonce n) (may_replace at nonce p && has_name at n p)
      (λ e. (ground (arith, e), ground (arith, e))) (λ _. k)

loop-IsBest :
    (at : ℕ → Client) (nonce n : Bytes) (ps : List ℕ) (best : Option ℕ) (res : List ℕ)
    → IsBest at nonce n best
    → IsBest at nonce n (candidates_loop at nonce n ps best res).0
unfolding candidates_loop
loop-IsBest at nonce n [] best res k = k
loop-IsBest at nonce n (p ∷ ps) best res k =
    loop-IsBest at nonce n ps _ _ (IsBest-next at nonce n p best k)

best_other :
    (at : ℕ → Client) (nonce n : Bytes) (q : ℕ) (best : Option ℕ) (res : List ℕ)
    → has_name at n q ≡ false
    → IsBest at nonce n best
    → contains q (push_best best res) ≡ contains q res
unfolding push_best contains
best_other at nonce n q none res other k = refl
best_other at nonce n q (some b) res other k = elim (Bool-cases (b == q)) [
  | inl e ↦ cc (subst (λ x. has_name at n x ≡ true) ((==_iff b q).0 e) k.1, other)
  | inr e ↦ rw e refl
]

-- Of the clients with another name than the wanted one, exactly those may be replaced that are listed under the
-- nonce of the login, and for which no other login waits.
pub find_clients_to_replace_iff :
    (nonce n : Bytes) (q : ℕ) (s : Server)
    → bytes_eq (s.client_at q).user_name n ≡ false
    → contains q (find_clients_to_replace nonce n s) ≡ (
        contains q s.clients
        && (not (is_some (s.client_at q).pending_login) && bytes_eq (s.client_at q).nonce nonce))
unfolding find_clients_to_replace
find_clients_to_replace_iff nonce n q s other =
    let r = candidates_loop s.client_at nonce n s.clients none [] in
    best_other s.client_at nonce n q r.0 r.1 other
      (loop-IsBest s.client_at nonce n s.clients none [] tt)
    ∙ loop_finds s.client_at nonce n q s.clients none [] other
    ∙ unfold contains in refl
