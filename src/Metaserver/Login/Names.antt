-- ===== src/Metaserver/Login/Names.antt =====
-- wlms/client.go: a login ends with names that are still unique.
use widelands_metaserver.Base.{
  true_ne_false, if_cases, ℕ, Bool, true, false, not, ◌&&◌, ◌||◌, Option, none, some, List, [], ◌∷◌,
  ◌==◌, is_some, length, bytes_eq, ◌≡◌, refl, sym, ap, ◌∙◌, subst, arith, Bool-cases, inl, inr, All,
}
use widelands_metaserver.Metaserver.World.{
  is_unregistered, is_irc, is_handshake, is_recently_disconnected, Client, Server, put_client,
}
use widelands_metaserver.Metaserver.Clients.{
  remove_client, has_client, has_irc_client, find_clients_to_replace, contains, find_named,
  remove_first,
}
use widelands_metaserver.Metaserver.Clients.Names.{
  NamesUnique, Unique-remove, find_named-remove_self, NamesUnique-Keeps,
}
use widelands_metaserver.Metaserver.Clients.Lookup.{
  has_client-ne-irc, find_clients_to_replace-listed,
}
use widelands_metaserver.Metaserver.Games.{pointer_eq}
use widelands_metaserver.Metaserver.Handler.{modify_client}
use widelands_metaserver.Metaserver.Login.{
  name_of, login_done, drop_permissions, replace_client, check_loop, candidates, check_candidates,
  find_replace_candidates,
}
use widelands_metaserver.Metaserver.Login.Newcomer.{
  Newcomer, find_named_unlisted, modify-Newcomer, login_done-NamesUnique, refuse-Keeps,
  name_of-modify_client, modify_client_self,
}
use widelands_metaserver.Metaserver.Login.Unconnected.{find_unconnected_name-NamesUnique}
use widelands_metaserver.Metaserver.Login.Waiting.{wait_for_client-Keeps}

-- Giving up the rights.
drop_permissions-Newcomer :
    (p old : ℕ) (s : Server) → Newcomer p s → Newcomer p (drop_permissions p old s)
unfolding drop_permissions
drop_permissions-Newcomer p old s w =
    elim (Bool-cases (
      not (bytes_eq (name_of old s) (name_of p s))
      && not (is_unregistered (s.client_at p).permissions))) [
        | inl e ↦ rw e (modify-Newcomer p _ s refl w)
        | inr e ↦ rw e w
      ]

contains-remove_first :
    (p q : ℕ) (ps : List ℕ) → contains p ps ≡ false → contains p (remove_first q ps) ≡ false
unfolding contains remove_first
contains-remove_first p q [] h = h
contains-remove_first p q (r ∷ rs) h = ground (arith, contains-remove_first p q rs)

-- The fields that the removal of a client leaves alone, and the list.
pub remove_client_fields :
    (old : ℕ) (s : Server)
    → ((remove_client old s).clients ≡ remove_first old s.clients)
      × ((remove_client old s).client_at ≡ s.client_at)
      × ((remove_client old s).user_db ≡ s.user_db)
unfolding remove_client
remove_client_fields old s =
    elim (Bool-cases (contains old s.clients && not (is_irc (s.client_at old).permissions))) [
      | inl e ↦ rw e (refl, refl, refl)
      | inr e ↦ rw e (refl, refl, refl)
    ]

pub remove_client-Newcomer :
    (p old : ℕ) (s : Server) → Newcomer p s → Newcomer p (remove_client old s)
remove_client-Newcomer p old s w =
    let (l, a, d) = remove_client_fields old s in
    record {
      unique = rw (l, a) (Unique-remove s.client_at old s.clients w.unique);
      unlisted = rw l (contains-remove_first p old s.clients w.unlisted);
      player = rw a w.player;
      irc_online = rw a w.irc_online;
      no_irc_accounts = rw d w.no_irc_accounts;
    }

-- The name of a listed player is free for the newcomer once the player is removed.
pub name_freed :
    (p old : ℕ) (f : Client → Client) (s : Server)
    → Newcomer p s
    → contains old s.clients ≡ true
    → is_irc (s.client_at old).permissions ≡ false
    → (f (s.client_at p)).user_name ≡ name_of old s
    → has_client
        (name_of p (remove_client old (modify_client p f s)))
        (remove_client old (modify_client p f s))
      ≡ none
unfolding has_client modify_client put_client
name_freed p old f s w inside player e =
    let (l, a, d) = remove_client_fields old (modify_client p f s) in
    rw (l, a)
      (ap (λ n. find_named (modify_client p f s).client_at false n (remove_first old s.clients))
          (name_of-modify_client p f s ∙ e)
        ∙ find_named_unlisted p (f (s.client_at p)) false (name_of old s) s
            (remove_first old s.clients) (contains-remove_first p old s.clients w.unlisted)
        ∙ subst (λ b. find_named s.client_at b (name_of old s) (remove_first old s.clients) ≡ none)
            player (find_named-remove_self s.client_at old s.clients w.unique inside))

-- A listed player may be replaced: its name is free once it is removed.
replace_client-NamesUnique :
    (p old : ℕ) (s : Server)
    → Newcomer p s
    → contains old s.clients ≡ true
    → is_irc (s.client_at old).permissions ≡ false
    → NamesUnique (replace_client p old s)
unfolding replace_client
replace_client-NamesUnique p old s w inside player =
    let o = s.client_at old in
    let f = λ (c : Client). record c { user_name = o.user_name; game = o.game } in
    let s' = modify_client p f s in
    login_done-NamesUnique p (remove_client old s')
      (remove_client-Newcomer p old s' (modify-Newcomer p f s w.player w))
      (name_freed p old f s w inside player refl)

-- The candidates are listed.
abbrev pub Listed : Server → List ℕ → Type 0
Listed s = All (λ q. contains q s.clients ≡ true)

checked_clients :
    (p old : ℕ) (rest : List ℕ) (s : Server)
    → (drop_permissions p old
        (modify_client p (λ c. record c { replace_candidates = some rest }) s)).clients
      ≡ s.clients
unfolding drop_permissions modify_client put_client
checked_clients p old rest s = ground arith

-- A client that is known to be offline is no IRC user.
player_of_gone :
    (p old : ℕ) (s : Server)
    → Newcomer p s
    → is_recently_disconnected (s.client_at old).state ≡ true
    → is_irc (s.client_at old).permissions ≡ false
player_of_gone p old s w gone = elim (Bool-cases (is_irc (s.client_at old).permissions)) [
  | inl yes_irc ↦ absurd (true_ne_false gone (w.irc_online old yes_irc))
  | inr player ↦ player
]

check_loop-NamesUnique :
    (p : ℕ) (l : List ℕ) (s : Server) → Newcomer p s → Listed s l → NamesUnique (check_loop p l s)
unfolding check_loop
check_loop-NamesUnique p [] s w h =
    if_cases NamesUnique (is_handshake (s.client_at p).state)
      (λ _. find_unconnected_name-NamesUnique p s w)
      (λ _. NamesUnique-Keeps (refuse-Keeps p s) w.unique)
check_loop-NamesUnique p (old ∷ rest) s w h =
    let s' =
      drop_permissions p old
        (modify_client p (λ c. record c { replace_candidates = some rest }) s) in
    let w' : Newcomer p s' =
      drop_permissions-Newcomer p old _
        (modify-Newcomer p (λ c. record c { replace_candidates = some rest }) s w.player w) in
    let same : s'.clients ≡ s.clients = checked_clients p old rest s in
    if_cases NamesUnique (not (is_handshake (s.client_at p).state))
      (λ _. NamesUnique-Keeps (refuse-Keeps p s) w.unique)
      λ _.
        if_cases NamesUnique (is_some (s'.client_at old).pending_login)
          (λ _.
            check_loop-NamesUnique p rest s' w'
              (subst (λ l. All (λ q. contains q l ≡ true) rest) (sym same) h.1))
          λ _.
            if_cases NamesUnique (is_recently_disconnected (s'.client_at old).state)
              (λ gone.
                replace_client-NamesUnique p old s' w' (rw same h.0)
                  (player_of_gone p old s' w' gone))
              (λ _. NamesUnique-Keeps (wait_for_client-Keeps p old _ s') w'.unique)

check_candidates-NamesUnique :
    (p : ℕ) (s : Server)
    → Newcomer p s
    → Listed s (candidates (s.client_at p).replace_candidates)
    → NamesUnique (check_candidates p s)
unfolding check_candidates
check_candidates-NamesUnique p s w h = check_loop-NamesUnique p _ s w h

free_of_test : (o : Option ℕ) (b : Bool) → (not (is_some o) && b) ≡ true → o ≡ none
free_of_test none b h = refl
free_of_test (some q) b h = cc

pub find_replace_candidates-NamesUnique :
    (p : ℕ) (r : Bool) (s : Server) → Newcomer p s → NamesUnique (find_replace_candidates p r s)
unfolding find_replace_candidates modify_client
find_replace_candidates-NamesUnique p r s w =
    let found = find_clients_to_replace (s.client_at p).nonce (name_of p s) s in
    let f = λ (c : Client). record c { replace_candidates = some found } in
    let s' = modify_client p f s in
    let n = name_of p s in
    let w' : Newcomer p s' = modify-Newcomer p f s w.player w in
    let finish : has_client n s' ≡ none → NamesUnique (login_done p s') = λ free.
      login_done-NamesUnique p s' w'
        (ap (λ m. has_client m s') (name_of-modify_client p f s) ∙ free) in
    if_cases NamesUnique (length found == 0)
      (λ _.
        if_cases NamesUnique
          (not (is_some (has_client n s')) && (r || not (s'.user_db.contains_name n)))
          (λ t. finish (free_of_test (has_client n s') _ t))
          λ _.
            if_cases NamesUnique (pointer_eq (has_client n s') (has_irc_client n s') && r)
              (λ t. finish (has_client-ne-irc n s' (ground arith)))
              (λ _. find_unconnected_name-NamesUnique p s' w'))
      λ _.
        check_candidates-NamesUnique p s' w'
          (rw (modify_client_self p f s) (find_clients_to_replace-listed (s.client_at p).nonce n s))
