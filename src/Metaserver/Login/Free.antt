-- ===== src/Metaserver/Login/Free.antt =====
-- wlms/client.go: a login under a name that is free, with a nonce that nobody else has.
use widelands_metaserver.Base.{
  ℕ, true, false, Option, none, some, List, [], ◌∷◌, Bytes, ◌≡◌, refl, ap,
}
use widelands_metaserver.Metaserver.World.{Client, Server, put_client}
use widelands_metaserver.Metaserver.Clients.{
  contains, has_client, candidates_loop, push_best, find_clients_to_replace,
}
use widelands_metaserver.Metaserver.Handler.{modify_client}
use widelands_metaserver.Metaserver.Login.{name_of, login_done, find_replace_candidates}
use widelands_metaserver.Metaserver.Login.Newcomer.{
  put_client_ne, unlisted_cons, has_client_unlisted,
}

candidates_loop_unlisted :
    (p : ℕ) (c : Client) (nonce n : Bytes) (s : Server) (ps : List ℕ) (best : Option ℕ)
    (res : List ℕ)
    → contains p ps ≡ false
    → candidates_loop (put_client p c s).client_at nonce n ps best res
      ≡ candidates_loop s.client_at nonce n ps best res
unfolding candidates_loop
candidates_loop_unlisted p c nonce n s [] best res h = refl
candidates_loop_unlisted p c nonce n s (q ∷ qs) best res h =
    let (ne, rest) = unlisted_cons p q qs h in
    rw (put_client_ne p c s q ne) (candidates_loop_unlisted p c nonce n s qs _ _ rest)

-- Whom a login may replace does not depend on a client that is not listed.
pub find_clients_unlisted :
    (p : ℕ) (f : Client → Client) (nonce n : Bytes) (s : Server)
    → contains p s.clients ≡ false
    → find_clients_to_replace nonce n (modify_client p f s) ≡ find_clients_to_replace nonce n s
unfolding find_clients_to_replace modify_client
find_clients_unlisted p f nonce n s h =
    ap (λ r. push_best r.0 r.1)
      (candidates_loop_unlisted p (f (s.client_at p)) nonce n s s.clients none [] h)

abbrev pub no_candidates : Client → Client
no_candidates c = record c { replace_candidates = some [] }

-- Then the login is done at once.
pub find_replace_candidates_free :
    (p : ℕ) (s : Server)
    → contains p s.clients ≡ false
    → find_clients_to_replace (s.client_at p).nonce (name_of p s) s ≡ []
    → has_client (name_of p s) s ≡ none
    → find_replace_candidates p true s ≡ login_done p (modify_client p no_candidates s)
unfolding find_replace_candidates
find_replace_candidates_free p s un found free =
    rw (found, has_client_unlisted p no_candidates (name_of p s) s un, free)
