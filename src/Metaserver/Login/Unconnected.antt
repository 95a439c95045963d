-- ===== src/Metaserver/Login/Unconnected.antt =====
-- wlms/client.go: findUnconnectedName keeps the names of the listed clients unique.
use widelands_metaserver.Base.{
  if_cases, none_of_is_some, ℕ, zero, suc, none, is_some, Bytes, ◌≡◌, refl, ap, ◌∙◌,
}
use widelands_metaserver.Metaserver.World.{Server}
use widelands_metaserver.Metaserver.Clients.{has_client}
use widelands_metaserver.Metaserver.Clients.Frame.{disconnect-Keeps}
use widelands_metaserver.Metaserver.Clients.Names.{NamesUnique, NamesUnique-Keeps}
use widelands_metaserver.Metaserver.Handler.{modify_client}
use widelands_metaserver.Metaserver.Login.{
  name_of, name_loop, take_free_name, find_unconnected_name, numbered,
}
use widelands_metaserver.Metaserver.Login.Newcomer.{
  Newcomer, modify-Newcomer, login_done-NamesUnique, modify_free, name_of-modify_client,
}

take_free_name-NamesUnique :
    (p : ℕ) (base : Bytes) (s : Server)
    → Newcomer p s
    → has_client (name_of p s) s ≡ none
    → NamesUnique (take_free_name p base s)
unfolding take_free_name
take_free_name-NamesUnique p base s w free =
    login_done-NamesUnique p _ (modify-Newcomer p _ s refl w) (modify_free p _ s w free)

name_loop-NamesUnique :
    (k i : ℕ) (base : Bytes) (p : ℕ) (s : Server)
    → Newcomer p s
    → NamesUnique (name_loop k i base p s)
unfolding name_loop
name_loop-NamesUnique zero i base p s w = NamesUnique-Keeps (disconnect-Keeps p s) w.unique
name_loop-NamesUnique (suc k) i base p s w =
    let name = numbered base (suc i) in
    let s' = modify_client p (λ c. record c { user_name = name }) s in
    let w' : Newcomer p s' = modify-Newcomer p _ s w.player w in
    let again = name_loop-NamesUnique k (suc i) base p s' w' in
    if_cases NamesUnique (s.user_db.contains_name name) (λ _. again)
      λ _.
        if_cases NamesUnique (is_some (has_client name s')) (λ _. again)
          λ free. take_free_name-NamesUnique p base s' w' (
            ap (λ n. has_client n s')
              (name_of-modify_client p (λ c. record c { user_name = name }) s)
            ∙ none_of_is_some (has_client name s') free)

pub find_unconnected_name-NamesUnique :
    (p : ℕ) (s : Server) → Newcomer p s → NamesUnique (find_unconnected_name p s)
unfolding find_unconnected_name
find_unconnected_name-NamesUnique p s w = name_loop-NamesUnique 1000 0 (name_of p s) p s w
