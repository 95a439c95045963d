-- ===== src/Metaserver/Clients/Names.antt =====
-- The names of the listed clients: no two players have one name, nor two IRC users.
use widelands_metaserver.Base.{
  ℕ, Bool, true, none, List, [], ◌∷◌, ◌++◌, ◌==◌, ==_iff, subst, Bytes, bytes_eq_refl,
  eq_of_bytes_eq, ◌≡◌, refl, arith, Bool-cases, inl, inr,
}
use widelands_metaserver.Metaserver.World.{is_irc, Client, Server}
use widelands_metaserver.Metaserver.Clients.{contains, remove_first, find_named}
use widelands_metaserver.Metaserver.Clients.Frame.{Keeps}

abbrev pub on_irc : Client → Bool
on_irc c = is_irc c.permissions

-- No later client of the list has the name of an earlier one, of the same kind.
abbrev pub Unique : (ℕ → Client) → List ℕ → Type 0
Unique at [] = Unit
Unique at (p ∷ ps) = (find_named at (on_irc (at p)) (at p).user_name ps ≡ none) × Unique at ps

-- "name displayed in the GUI. This is guaranteed to be unique on the Server."
abbrev pub NamesUnique : Server → Type 0
NamesUnique s = Unique s.client_at s.clients

find_named-push :
    (at : ℕ → Client) (b : Bool) (n : Bytes) (ps : List ℕ) (q : ℕ)
    → find_named at b n ps ≡ none
    → find_named at b n (q ∷ []) ≡ none
    → find_named at b n (ps ++ (q ∷ [])) ≡ none
unfolding find_named
find_named-push at b n [] q h k = k
find_named-push at b n (p ∷ ps) q h k = ground (arith, find_named-push at b n ps q)

-- Of two clients of one name and kind each finds the other.
find_named_swap :
    (at : ℕ → Client) (p q : ℕ)
    → find_named at (on_irc (at q)) (at q).user_name (p ∷ []) ≡ none
    → find_named at (on_irc (at p)) (at p).user_name (q ∷ []) ≡ none
unfolding find_named
find_named_swap at p q h =
    ground (arith, eq_of_bytes_eq (at q).user_name (at p).user_name, bytes_eq_refl (at p).user_name)

find_named_head :
    (at : ℕ → Client) (b : Bool) (n : Bytes) (p : ℕ) (ps : List ℕ)
    → find_named at b n (p ∷ ps) ≡ none
    → (find_named at b n (p ∷ []) ≡ none) × (find_named at b n ps ≡ none)
unfolding find_named
find_named_head at b n p ps h = ground arith

pub Unique-push :
    (at : ℕ → Client) (ps : List ℕ) (q : ℕ)
    → Unique at ps
    → find_named at (on_irc (at q)) (at q).user_name ps ≡ none
    → Unique at (ps ++ (q ∷ []))
Unique-push at [] q u h = (unfold find_named in refl, tt)
Unique-push at (p ∷ ps) q u h =
    let (first, rest) = find_named_head at _ _ p ps h in
    (find_named-push at _ _ ps q u.0 (find_named_swap at p q first), Unique-push at ps q u.1 rest)

pub find_named-remove :
    (at : ℕ → Client) (b : Bool) (n : Bytes) (q : ℕ) (ps : List ℕ)
    → find_named at b n ps ≡ none
    → find_named at b n (remove_first q ps) ≡ none
unfolding find_named remove_first
find_named-remove at b n q [] h = h
find_named-remove at b n q (p ∷ ps) h = ground (arith, find_named-remove at b n q ps)

pub Unique-remove :
    (at : ℕ → Client) (q : ℕ) (ps : List ℕ) → Unique at ps → Unique at (remove_first q ps)
unfolding remove_first
Unique-remove at q [] u = tt
Unique-remove at q (p ∷ ps) u = elim (Bool-cases (p == q)) [
  | inl e ↦ rw e u.1
  | inr e ↦ rw e (find_named-remove at _ _ q ps u.0, Unique-remove at q ps u.1)
]

find_named_cons :
    (at : ℕ → Client) (b : Bool) (n : Bytes) (p : ℕ) (ps : List ℕ)
    → find_named at b n (p ∷ []) ≡ none
    → find_named at b n ps ≡ none
    → find_named at b n (p ∷ ps) ≡ none
unfolding find_named
find_named_cons at b n p ps h k = ground arith

-- Where nobody is found, no client of the list fits.
pub find_named-contains :
    (at : ℕ → Client) (b : Bool) (n : Bytes) (q : ℕ) (ps : List ℕ)
    → find_named at b n ps ≡ none
    → contains q ps ≡ true
    → find_named at b n (q ∷ []) ≡ none
unfolding contains
find_named-contains at b n q [] h c = cc
find_named-contains at b n q (p ∷ ps) h c =
    let (first, rest) = find_named_head at b n p ps h in
    elim (Bool-cases (p == q)) [
      | inl e ↦ subst (λ x. find_named at b n (x ∷ []) ≡ none) ((==_iff p q).0 e) first
      | inr e ↦ find_named-contains at b n q ps rest (rw e at c)
    ]

-- Who is removed leaves nobody of the same name and kind behind.
pub find_named-remove_self :
    (at : ℕ → Client) (q : ℕ) (ps : List ℕ)
    → Unique at ps
    → contains q ps ≡ true
    → find_named at (on_irc (at q)) (at q).user_name (remove_first q ps) ≡ none
unfolding contains remove_first
find_named-remove_self at q [] u h = cc
find_named-remove_self at q (p ∷ ps) u h = elim (Bool-cases (p == q)) [
  | inl e ↦
      rw e (
        subst (λ x. find_named at (on_irc (at x)) (at x).user_name ps ≡ none) ((==_iff p q).0 e)
          u.0)
  | inr e ↦
      let inside : contains q ps ≡ true = rw e at h in
      rw e (
        find_named_cons at _ _ p (remove_first q ps)
          (find_named_swap at q p (find_named-contains at _ _ q ps u.0 inside))
          (find_named-remove_self at q ps u.1 inside))
]

-- Names and rights alone decide who is found.
pub find_named-Keeps :
    {s t : Server} (k : Keeps s t) (b : Bool) (n : Bytes) (ps : List ℕ)
    → find_named t.client_at b n ps ≡ find_named s.client_at b n ps
unfolding find_named
find_named-Keeps k b n [] = refl
find_named-Keeps k b n (p ∷ ps) = rw (k.names p, k.rights p, find_named-Keeps k b n ps)

pub Unique-Keeps :
    {s t : Server} (k : Keeps s t) (ps : List ℕ) → Unique s.client_at ps → Unique t.client_at ps
Unique-Keeps k [] u = tt
Unique-Keeps {s} {t} k (p ∷ ps) u = (
  rw (k.names p, k.rights p, find_named-Keeps {s = s} {t = t} k) u.0,
  Unique-Keeps {s = s} {t = t} k ps u.1,
)

pub NamesUnique-Keeps : {s t : Server} → Keeps s t → NamesUnique s → NamesUnique t
NamesUnique-Keeps {s} {t} k u = rw k.clients (Unique-Keeps {s = s} {t = t} k s.clients u)
