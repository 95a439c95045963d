-- ===== src/Base/Keys.antt =====
-- Numbers that are found in a list by a text that belongs to each.
use Prim.Native.Nat.{ℕ, suc, ◌<◌}
use mathlib.Core.Path.{◌≡◌, refl, ◌∙◌}
use mathlib.Core.Logic.{inl, inr}
use mathlib.Core.Bool.{false}
use mathlib.Core.Option.{Option, none, some}
use mathlib.Core.List.{List, [], ◌∷◌, ◌++◌}
use native.Mathlib.Omega.{arith}
use widelands_metaserver.Base.Tests.{if◌then◌else◌, Bool-cases}
use widelands_metaserver.Base.Lists.{All}
use widelands_metaserver.Base.Text.{Bytes, bytes_eq, bytes_eq_refl, eq_of_bytes_eq}

-- The first number of a list with a text.
unfoldable pub find_key : (ℕ → Bytes) → Bytes → List ℕ → Option ℕ
find_key key n [] = none
find_key key n (g ∷ gs) = if bytes_eq (key g) n then some g else find_key key n gs

-- No later number of the list has the text of an earlier one.
abbrev pub Distinct : (ℕ → Bytes) → List ℕ → Type 0
Distinct key [] = Unit
Distinct key (g ∷ gs) = (find_key key (key g) gs ≡ none) × Distinct key gs

find_key_head :
    (key : ℕ → Bytes) (n : Bytes) (g : ℕ) (gs : List ℕ)
    → find_key key n (g ∷ gs) ≡ none
    → (bytes_eq (key g) n ≡ false) × (find_key key n gs ≡ none)
unfolding find_key
find_key_head key n g gs h = ground arith

find_key-push :
    (key : ℕ → Bytes) (n : Bytes) (gs : List ℕ) (g : ℕ)
    → find_key key n gs ≡ none
    → bytes_eq (key g) n ≡ false
    → find_key key n (gs ++ (g ∷ [])) ≡ none
unfolding find_key
find_key-push key n [] g h e = rw e refl
find_key-push key n (x ∷ xs) g h e = ground (arith, find_key-push key n xs g)

bytes_ne_swap : (a b : Bytes) → bytes_eq a b ≡ false → bytes_eq b a ≡ false
bytes_ne_swap a b h = elim (Bool-cases (bytes_eq b a)) [
  | inr e ↦ e
  | inl e ↦ cc (eq_of_bytes_eq b a e, bytes_eq_refl a, h)
]

pub Distinct-push :
    (key : ℕ → Bytes) (gs : List ℕ) (g : ℕ)
    → Distinct key gs
    → find_key key (key g) gs ≡ none
    → Distinct key (gs ++ (g ∷ []))
Distinct-push key [] g u h = (unfold find_key in refl, tt)
Distinct-push key (x ∷ xs) g u h =
    let (first, rest) = find_key_head key (key g) x xs h in
    (
      find_key-push key (key x) xs g u.0 (bytes_ne_swap (key x) (key g) first),
      Distinct-push key xs g u.1 rest,
    )

pub find_key-last :
    (key : ℕ → Bytes) (n : Bytes) (gs : List ℕ) (g : ℕ)
    → find_key key n gs ≡ none
    → key g ≡ n
    → find_key key n (gs ++ (g ∷ [])) ≡ some g
unfolding find_key
find_key-last key n [] g h e = rw (e, bytes_eq_refl n) refl
find_key-last key n (x ∷ xs) g h e =
    let (first, rest) = find_key_head key n x xs h in rw first (find_key-last key n xs g rest e)

-- Only the numbers of the list count.
pub find_key-same :
    (key key' : ℕ → Bytes) (k : ℕ) (n : Bytes) (gs : List ℕ)
    → All (λ g. g < k) gs
    → ((g : ℕ) → g < k → key' g ≡ key g)
    → find_key key' n gs ≡ find_key key n gs
unfolding find_key
find_key-same key key' k n [] below h = refl
find_key-same key key' k n (g ∷ gs) below h =
    rw (h g below.0, find_key-same key key' k n gs below.1 h) refl

pub Distinct-same :
    (key key' : ℕ → Bytes) (k : ℕ) (gs : List ℕ)
    → All (λ g. g < k) gs
    → ((g : ℕ) → g < k → key' g ≡ key g)
    → Distinct key gs
    → Distinct key' gs
Distinct-same key key' k [] below h u = tt
Distinct-same key key' k (g ∷ gs) below h u = (
  find_key-same key key' k (key' g) gs below.1 h ∙ rw (h g below.0) u.0,
  Distinct-same key key' k gs below.1 h u.1,
)

pub All-below : (k : ℕ) (gs : List ℕ) → All (λ g. g < k) gs → All (λ g. g < suc k) gs
All-below k [] h = tt
All-below k (g ∷ gs) h = (omega (arith, h.0), All-below k gs h.1)
