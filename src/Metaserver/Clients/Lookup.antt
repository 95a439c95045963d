-- ===== src/Metaserver/Clients/Lookup.antt =====
-- wlms/server.go: what HasClient, HasIRCClient and FindClientsToReplace find.
use widelands_metaserver.Base.{
  ℕ, Bool, true, false, not, ◌&&◌, Option, none, some, List, [], ◌∷◌, ◌++◌, ==_iff, ==_refl,
  if◌then◌else◌, is_some, Bytes, bytes_eq, eq_of_bytes_eq, ◌≡◌, sym, arith, Option-cases, inl, inr,
  All, All-append, subst,
}
use widelands_metaserver.Metaserver.World.{is_irc, is_recently_disconnected, Client, Server}
use widelands_metaserver.Metaserver.Clients.{
  contains, find_named, has_client, has_irc_client, candidates_loop, push_best,
  find_clients_to_replace,
}
use widelands_metaserver.Metaserver.Games.{pointer_eq}

-- Who is found is listed, has the name, and is an IRC user exactly if one was looked for.
pub find_named-some :
    (at : ℕ → Client) (b : Bool) (n : Bytes) (ps : List ℕ) (q : ℕ)
    → find_named at b n ps ≡ some q
    → (contains q ps ≡ true) × ((at q).user_name ≡ n) × (is_irc (at q).permissions ≡ b)
unfolding find_named contains
find_named-some at b n [] q h = cc
find_named-some at b n (p ∷ ps) q h =
    ground (arith, find_named-some at b n ps q, eq_of_bytes_eq (at p).user_name n, ==_refl p)

-- A player's name is never found on IRC as the same client: the second test of findReplaceCandidates is
-- true for no user who is there.
pub has_client-ne-irc :
    (n : Bytes) (s : Server)
    → pointer_eq (has_client n s) (has_irc_client n s) ≡ true
    → has_client n s ≡ none
unfolding has_client has_irc_client
has_client-ne-irc n s h = elim (Option-cases (find_named s.client_at false n s.clients)) [
  | inl e ↦ e
  | inr (q, e) ↦ elim (Option-cases (find_named s.client_at true n s.clients)) [
    | inl f ↦ cc (rw (e, f) at h)
    | inr (r, f) ↦
        let same : q ≡ r = (==_iff q r).0 (rw (e, f) at h) in
        let player = (find_named-some s.client_at false n s.clients q e).2 in
        let on_irc = (find_named-some s.client_at true n s.clients r f).2 in
        cc (subst (λ x. is_irc (s.client_at x).permissions ≡ true) (sym same) on_irc, player)
  ]
]

abbrev In : List ℕ → ℕ → Type 0
In cs q = contains q cs ≡ true

In-cons : (p : ℕ) (cs ps : List ℕ) → All (In cs) ps → All (In (p ∷ cs)) ps
unfolding contains
In-cons p cs [] h = tt
In-cons p cs (q ∷ qs) h = (ground (arith, h.0), In-cons p cs qs h.1)

In-self : (cs : List ℕ) → All (In cs) cs
In-self [] = tt
In-self (p ∷ cs) = (unfold contains in ground (arith, ==_refl p), In-cons p cs cs (In-self cs))

abbrev InBest : List ℕ → Option ℕ → Type 0
InBest cs none = Unit
InBest cs (some q) = In cs q

All-if :
    (cs : List ℕ) (b : Bool) (xs ys : List ℕ)
    → All (In cs) xs
    → All (In cs) ys
    → All (In cs) (if b then xs else ys)
All-if cs true xs ys h k = h
All-if cs false xs ys h k = k

InBest-if :
    (cs : List ℕ) (b : Bool) (x y : Option ℕ)
    → InBest cs x
    → InBest cs y
    → InBest cs (if b then x else y)
InBest-if cs true x y h k = h
InBest-if cs false x y h k = k

candidates_loop-In :
    (at : ℕ → Client) (nonce n : Bytes) (cs ps : List ℕ) (best : Option ℕ) (res : List ℕ)
    → All (In cs) ps
    → InBest cs best
    → All (In cs) res
    → let (b, r) = candidates_loop at nonce n ps best res in InBest cs b × All (In cs) r
unfolding candidates_loop
candidates_loop-In at nonce n cs [] best res h i j = (i, j)
candidates_loop-In at nonce n cs (p ∷ ps) best res h i j =
    let c = at p in
    let same = not (is_some c.pending_login) && bytes_eq c.nonce nonce in
    let named = bytes_eq c.user_name n in
    let pushed =
      All-if cs (is_recently_disconnected c.state) (p ∷ res) (res ++ (p ∷ [])) (h.0, j)
        (All-append (In cs) res (p ∷ []) j (h.0, tt)) in
    candidates_loop-In at nonce n cs ps _ _ h.1 (InBest-if cs (same && named) (some p) best h.0 i)
      (All-if cs (same && not named) _ res pushed j)

push_best-In :
    (cs : List ℕ) (best : Option ℕ) (res : List ℕ)
    → InBest cs best
    → All (In cs) res
    → All (In cs) (push_best best res)
unfolding push_best
push_best-In cs none res i j = j
push_best-In cs (some q) res i j = (i, j)

-- Every client that may be replaced is listed.
pub find_clients_to_replace-listed :
    (nonce n : Bytes) (s : Server)
    → All (λ q. contains q s.clients ≡ true) (find_clients_to_replace nonce n s)
unfolding find_clients_to_replace
find_clients_to_replace-listed nonce n s =
    let (i, j) =
      candidates_loop-In s.client_at nonce n s.clients s.clients none [] (In-self s.clients) tt
        tt in
    push_best-In s.clients _ _ i j
