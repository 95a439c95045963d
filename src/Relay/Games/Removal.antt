-- ===== src/Relay/Games/Removal.antt =====
-- wlnr/server.go: what the removal of a game leaves of the list of games.
use widelands_metaserver.Base.{
  ℕ, suc, true, false, none, List, [], ◌∷◌, ◌==◌, ◌≡◌, refl, Bool-cases, inl, inr, ==_iff, arith,
  subst, All, length, Bytes, bytes_eq, bytes_eq_refl, find_key, Distinct,
}
use widelands_metaserver.Relay.Games.{contains, remove_first}

pub All-remove_first {ℓ} :
    (P : ℕ → Type ℓ) (g : ℕ) (gs : List ℕ) → All P gs → All P (remove_first g gs)
unfolding remove_first
All-remove_first P g [] h = h
All-remove_first P g (x ∷ xs) h = elim (Bool-cases (x == g)) [
  | inl e ↦ rw e h.1
  | inr e ↦ rw e (h.0, All-remove_first P g xs h.1)
]

find_key-remove_first :
    (key : ℕ → Bytes) (n : Bytes) (g : ℕ) (gs : List ℕ)
    → find_key key n gs ≡ none
    → find_key key n (remove_first g gs) ≡ none
unfolding find_key remove_first
find_key-remove_first key n g [] h = h
find_key-remove_first key n g (x ∷ xs) h = ground (arith, find_key-remove_first key n g xs)

pub Distinct-remove_first :
    (key : ℕ → Bytes) (g : ℕ) (gs : List ℕ) → Distinct key gs → Distinct key (remove_first g gs)
unfolding remove_first
Distinct-remove_first key g [] u = u
Distinct-remove_first key g (x ∷ xs) u = elim (Bool-cases (x == g)) [
  | inl e ↦ rw e u.1
  | inr e ↦ rw e (find_key-remove_first key (key x) g xs u.0, Distinct-remove_first key g xs u.1)
]

contains-free :
    (key : ℕ → Bytes) (g : ℕ) (gs : List ℕ) → find_key key (key g) gs ≡ none → contains g gs ≡ false
unfolding find_key contains
contains-free key g [] h = refl
contains-free key g (x ∷ xs) h = elim (Bool-cases (x == g)) [
  | inl e ↦
      let same : bytes_eq (key x) (key g) ≡ true =
        subst (λ q. bytes_eq (key x) (key q) ≡ true) ((==_iff x g).0 e) (bytes_eq_refl (key x)) in
      cc (rw same at h)
  | inr e ↦ rw e (ground (arith, contains-free key g xs))
]

-- Where no text comes twice, a removed number is not on the list any more.
pub contains-remove_first :
    (key : ℕ → Bytes) (g : ℕ) (gs : List ℕ)
    → Distinct key gs
    → contains g (remove_first g gs) ≡ false
unfolding contains remove_first
contains-remove_first key g [] u = refl
contains-remove_first key g (x ∷ xs) u = elim (Bool-cases (x == g)) [
  | inl e ↦
      rw e (
        contains-free key g xs (subst (λ q. find_key key (key q) xs ≡ none) ((==_iff x g).0 e) u.0))
  | inr e ↦ rw (e, e) (contains-remove_first key g xs u.1)
]

pub length-remove_first :
    (g : ℕ) (gs : List ℕ) → contains g gs ≡ true → suc (length (remove_first g gs)) ≡ length gs
unfolding contains remove_first
length-remove_first g [] h = cc
length-remove_first g (x ∷ xs) h = elim (Bool-cases (x == g)) [
  | inl e ↦ rw e (omega arith)
  | inr e ↦ rw e (omega (arith, length-remove_first g xs (rw e at h)))
]

-- A change of one number that is not on the list.
pub All-skip {ℓ} :
    (P Q : ℕ → Type ℓ) (g : ℕ) (gs : List ℕ)
    → contains g gs ≡ false
    → ((q : ℕ) → (q == g) ≡ false → P q → Q q)
    → All P gs
    → All Q gs
unfolding contains
All-skip P Q g [] h k a = tt
All-skip P Q g (x ∷ xs) h k a = elim (Bool-cases (x == g)) [
  | inl e ↦ cc (rw e at h)
  | inr e ↦ (k x e a.0, All-skip P Q g xs (rw e at h) k a.1)
]
