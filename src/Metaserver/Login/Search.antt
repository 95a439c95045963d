-- ===== src/Metaserver/Login/Search.antt =====
-- wlms/client.go: the name that findUnconnectedName gives.
use mathlib.Core.Path.{fun_ext}
use widelands_metaserver.Base.{
  ℕ, zero, suc, ◌+◌, ◌<◌, ◌≤◌, Bool, true, false, ◌||◌, if◌then◌else◌, is_some, Bytes, ◌≡◌, refl,
  ap, ◌∙◌, arith,
}
use widelands_metaserver.Metaserver.World.{Server, put_client}
use widelands_metaserver.Metaserver.Clients.{contains, has_client, disconnect}
use widelands_metaserver.Metaserver.Handler.{modify_client}
use widelands_metaserver.Metaserver.Login.{
  name_of, numbered, name_loop, take_free_name, find_unconnected_name,
}
use widelands_metaserver.Metaserver.Login.Newcomer.{has_client_unlisted}

-- The name with a number is an account's, or a player's.
abbrev pub taken : Server → Bytes → ℕ → Bool
taken s base i =
    s.user_db.contains_name (numbered base i) || is_some (has_client (numbered base i) s)

abbrev pub named : ℕ → Bytes → Server → Server
named p n s = modify_client p (λ c. record c { user_name = n }) s

-- The second of two names counts.
named_twice : (p : ℕ) (m n : Bytes) (s : Server) → named p n (named p m s) ≡ named p n s
unfolding modify_client put_client
named_twice p m n s = ap (λ f. record s { client_at = f }) (fun_ext λ q. ground arith)

taken-named :
    (p : ℕ) (m base : Bytes) (i : ℕ) (s : Server)
    → contains p s.clients ≡ false
    → taken (named p m s) base i ≡ taken s base i
unfolding modify_client put_client
taken-named p m base i s un =
    ap (λ o. s.user_db.contains_name (numbered base i) || is_some o)
      (has_client_unlisted p (λ c. record c { user_name = m }) (numbered base i) s un)

-- One round of the loop.
name_loop_turn :
    (k i : ℕ) (base : Bytes) (p : ℕ) (s : Server)
    → contains p s.clients ≡ false
    → name_loop (suc k) i base p s ≡ (
        if taken s base (suc i)
        then name_loop k (suc i) base p (named p (numbered base (suc i)) s)
        else take_free_name p base (named p (numbered base (suc i)) s))
unfolding name_loop
name_loop_turn k i base p s un =
    let same =
      has_client_unlisted p (λ c. record c { user_name = numbered base (suc i) })
        (numbered base (suc i)) s un in
    ground (arith, same)

unlisted_named :
    (p : ℕ) (n : Bytes) (s : Server)
    → contains p s.clients ≡ false
    → contains p (named p n s).clients ≡ false
unfolding modify_client put_client
unlisted_named p n s h = h

-- After j taken names the next one, number t, is given.
name_loop_first :
    (j k i t : ℕ) (base : Bytes) (p : ℕ) (s : Server)
    → contains p s.clients ≡ false
    → ((m : ℕ) → i < m → m < t → taken s base m ≡ true)
    → taken s base t ≡ false
    → t ≡ suc (i + j)
    → j < k
    → name_loop k i base p s ≡ take_free_name p base (named p (numbered base t) s)
name_loop_first j zero i t base p s un all free e lt = absurd (omega arith)
name_loop_first zero (suc k) i t base p s un all free e lt =
    let e' : t ≡ suc i = omega arith in
    let free' = rw e' at free in name_loop_turn k i base p s un ∙ rw (free', e')
name_loop_first (suc j) (suc k) i t base p s un all free e lt =
    let n = numbered base (suc i) in
    let s' = named p n s in
    let next =
      name_loop_first j k (suc i) t base p s' (unlisted_named p n s un)
        (λ m l u. taken-named p n base m s un ∙ all m (omega arith) u)
        (taken-named p n base t s un ∙ free) (omega arith) (omega arith) in
    name_loop_turn k i base p s un
    ∙ rw (all (suc i) (omega arith) (omega arith), next)
        (ap (take_free_name p base) (named_twice p n (numbered base t) s))

-- A client that is not on the list of clients yet gets the first name, of those that are its own with a
-- number from 1 to 1000 behind it, which is neither an account's nor a listed player's: if t is the
-- first such number, the login goes on under the name with t.
pub find_unconnected_name-first :
    (p t : ℕ) (s : Server)
    → contains p s.clients ≡ false
    → 0 < t
    → t ≤ 1000
    → ((m : ℕ) → 0 < m → m < t → taken s (name_of p s) m ≡ true)
    → taken s (name_of p s) t ≡ false
    → find_unconnected_name p s
      ≡ take_free_name p (name_of p s) (named p (numbered (name_of p s) t) s)
unfolding find_unconnected_name
find_unconnected_name-first p zero s un pos le all free = absurd (omega arith)
find_unconnected_name-first p (suc t) s un pos le all free =
    name_loop_first t 1000 0 (suc t) (name_of p s) p s un all free (omega arith) (omega arith)

-- When all k names are taken, the loop gives up.
name_loop-taken :
    (k i : ℕ) (base : Bytes) (p : ℕ) (s : Server)
    → contains p s.clients ≡ false
    → ((m : ℕ) → i < m → m ≤ i + suc k → taken s base m ≡ true)
    → name_loop (suc k) i base p s ≡ disconnect p (named p (numbered base (i + suc k)) s)
name_loop-taken zero i base p s un all =
    let e : i + 1 ≡ suc i = omega arith in
    name_loop_turn 0 i base p s un
    ∙ rw (all (suc i) (omega arith) (omega arith), e) (unfold name_loop in refl)
name_loop-taken (suc k) i base p s un all =
    let n = numbered base (suc i) in
    let s' = named p n s in
    let next =
      name_loop-taken k (suc i) base p s' (unlisted_named p n s un)
        (λ m l u. taken-named p n base m s un ∙ all m (omega arith) (omega arith)) in
    let e : suc i + suc k ≡ i + suc (suc k) = omega arith in
    name_loop_turn (suc k) i base p s un
    ∙ rw (all (suc i) (omega arith) (omega arith), next, e)
        (ap (disconnect p) (named_twice p n (numbered base (i + suc (suc k))) s))

-- If all 1000 names are taken, the client is disconnected, under the last of them.
pub find_unconnected_name-none :
    (p : ℕ) (s : Server)
    → contains p s.clients ≡ false
    → ((m : ℕ) → 0 < m → m ≤ 1000 → taken s (name_of p s) m ≡ true)
    → find_unconnected_name p s ≡ disconnect p (named p (numbered (name_of p s) 1000) s)
unfolding find_unconnected_name
find_unconnected_name-none p s un all = name_loop-taken 999 0 (name_of p s) p s un all
