-- ===== src/Relay/Run/Counts.antt =====
-- wlnr/server.go: how many games have a name.
use widelands_metaserver.Base.{
  ℕ, zero, suc, ◌+◌, ◌<◌, true, List, [], ◌∷◌, ◌++◌, ◌==◌, ◌≡◌, refl, sym, subst, arith, Bool-cases,
  inl, inr, ==_iff, if◌then◌else◌, All, Bytes, bytes_eq,
}
use widelands_metaserver.Relay.Games.{contains, remove_first}

-- The games of a list that have the name.
unfoldable pub named : Bytes → (ℕ → Bytes) → List ℕ → ℕ
named n key [] = 0
named n key (g ∷ gs) = if bytes_eq (key g) n then suc (named n key gs) else named n key gs

-- The games among the first that were created that have the name.
unfoldable pub created : Bytes → (ℕ → Bytes) → ℕ → ℕ
created n key zero = 0
created n key (suc k) = if bytes_eq (key k) n then suc (created n key k) else created n key k

abbrev pub one_if : Bytes → Bytes → ℕ
one_if a b = if bytes_eq a b then 1 else 0

pub named-append :
    (n : Bytes) (key : ℕ → Bytes) (gs : List ℕ) (g : ℕ)
    → named n key (gs ++ (g ∷ [])) ≡ named n key gs + one_if (key g) n
unfolding named
named-append n key [] g = ground arith
named-append n key (x ∷ xs) g = ground (arith, named-append n key xs g)

pub named-remove_first :
    (n : Bytes) (key : ℕ → Bytes) (g : ℕ) (gs : List ℕ)
    → contains g gs ≡ true
    → named n key gs ≡ one_if (key g) n + named n key (remove_first g gs)
unfolding named contains remove_first
named-remove_first n key g [] h = cc
named-remove_first n key g (x ∷ xs) h = elim (Bool-cases (x == g)) [
  | inl e ↦ rw e (
      subst
        (λ q.
          (if bytes_eq (key q) n then suc (named n key xs) else named n key xs)
          ≡ one_if (key g) n + named n key xs)
        (sym ((==_iff x g).0 e)) (ground arith))
  | inr e ↦ rw e (ground (arith, named-remove_first n key g xs (rw e at h)))
]

-- Only the names of the games below count.
pub named-below :
    (n : Bytes) (key key' : ℕ → Bytes) (k : ℕ) (gs : List ℕ)
    → All (λ g. g < k) gs
    → ((g : ℕ) → g < k → key' g ≡ key g)
    → named n key' gs ≡ named n key gs
unfolding named
named-below n key key' k [] a h = refl
named-below n key key' k (g ∷ gs) a h = rw (h g a.0, named-below n key key' k gs a.1 h) refl

pub created-below :
    (n : Bytes) (key key' : ℕ → Bytes) (k : ℕ)
    → ((g : ℕ) → g < k → key' g ≡ key g)
    → created n key' k ≡ created n key k
unfolding created
created-below n key key' zero h = refl
created-below n key key' (suc k) h =
    rw (h k (omega arith), created-below n key key' k λ g l. h g (omega (arith, l))) refl
