-- ===== src/Relay/Messages/Between.antt =====
-- wlnr/game.go: lists of clients whose ids go up, and getClient on them.
use widelands_metaserver.Base.{
  ℕ, suc, ◌+◌, ◌≤◌, true, false, some, List, [], ◌∷◌, ◌++◌, ◌==◌, ◌≡◌, refl, arith, Bool-cases, inl,
  inr, ==_refl, ==_iff, subst,
}
use widelands_metaserver.Relay.State.{Client}
use widelands_metaserver.Relay.Games.{contains, remove_first}
use widelands_metaserver.Relay.Messages.{get_client}

-- The ids of a list of clients go up, from `lo` on and below `hi`.
abbrev pub Between : (ℕ → ℕ) → ℕ → List ℕ → ℕ → Type 0
Between id lo [] hi = lo ≤ hi
Between id lo (c ∷ cs) hi = (lo ≤ id c) × Between id (suc (id c)) cs hi

lower :
    (id : ℕ → ℕ) (lo lo' : ℕ) (cs : List ℕ) (hi : ℕ)
    → lo' ≤ lo
    → Between id lo cs hi
    → Between id lo' cs hi
lower id lo lo' [] hi le b = omega arith
lower id lo lo' (c ∷ cs) hi le b = (omega (arith, b.0), b.1)

pub Between-remove :
    (id : ℕ → ℕ) (q lo : ℕ) (cs : List ℕ) (hi : ℕ)
    → Between id lo cs hi
    → Between id lo (remove_first q cs) hi
unfolding remove_first
Between-remove id q lo [] hi b = b
Between-remove id q lo (c ∷ cs) hi b = elim (Bool-cases (c == q)) [
  | inl e ↦ rw e (lower id (suc (id c)) lo cs hi (omega (arith, b.0)) b.1)
  | inr e ↦ rw e (b.0, Between-remove id q (suc (id c)) cs hi b.1)
]

pub Between-push :
    (id : ℕ → ℕ) (c lo : ℕ) (cs : List ℕ) (hi : ℕ)
    → Between id lo cs hi
    → id c ≡ hi
    → Between id lo (cs ++ (c ∷ [])) (hi + 1)
Between-push id c lo [] hi b e = (omega arith, omega arith)
Between-push id c lo (x ∷ xs) hi b e = (b.0, Between-push id c (suc (id x)) xs hi b.1 e)

-- Only the ids of the clients on the list count.
pub Between-same :
    (id id' : ℕ → ℕ) (p lo : ℕ) (cs : List ℕ) (hi : ℕ)
    → contains p cs ≡ false
    → ((q : ℕ) → (q == p) ≡ false → id' q ≡ id q)
    → Between id lo cs hi
    → Between id' lo cs hi
unfolding contains
Between-same id id' p lo [] hi un h b = b
Between-same id id' p lo (c ∷ cs) hi un h b = elim (Bool-cases (c == p)) [
  | inl e ↦ cc (rw e at un)
  | inr e ↦ rw (h c e) (b.0, Between-same id id' p _ cs hi (rw e at un) h b.1)
]

pub after_start :
    (id : ℕ → ℕ) (p lo : ℕ) (cs : List ℕ) (hi : ℕ)
    → Between id lo cs hi
    → contains p cs ≡ true
    → lo ≤ id p
unfolding contains
after_start id p lo [] hi b h = cc
after_start id p lo (c ∷ cs) hi b h = elim (Bool-cases (c == p)) [
  | inl e ↦ subst (λ x. lo ≤ id x) ((==_iff c p).0 e) b.0
  | inr e ↦ omega (arith, b.0, after_start id p (suc (id c)) cs hi b.1 (rw e at h))
]

pub found_by_id :
    (at : ℕ → Client) (p lo : ℕ) (cs : List ℕ) (hi : ℕ)
    → Between (λ q. (at q).id) lo cs hi
    → contains p cs ≡ true
    → get_client at (at p).id cs ≡ some p
unfolding contains get_client
found_by_id at p lo [] hi b h = cc
found_by_id at p lo (c ∷ cs) hi b h = elim (Bool-cases (c == p)) [
  | inl e ↦
      subst (λ x. get_client at (at x).id (c ∷ cs) ≡ some x) ((==_iff c p).0 e)
        (rw (get_client, ==_refl (at c).id) refl)
  | inr e ↦
      let inside : contains p cs ≡ true = rw e at h in
      let later = after_start (λ q. (at q).id) p _ cs hi b.1 inside in
      let other : ((at c).id == (at p).id) ≡ false = ground (arith, later) in
      rw other (found_by_id at p _ cs hi b.1 inside)
]
