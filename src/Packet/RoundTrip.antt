-- ===== src/Packet/RoundTrip.antt =====
-- packet.go
use widelands_metaserver.Base.{
  ℕ, zero, suc, ◌+◌, ◌-◌, ◌*◌, ◌/◌, ◌%◌, ◌≤◌, ◌<◌, ◌≡◌, refl, ap, ◌∙◌, ◌≢◌, some, List, [], ◌∷◌,
  ◌++◌, map, arith, ◌==◌, length, take, drop, length-append, Bool-cases, inl, inr, Bytes, All,
}
use widelands_metaserver.Packet.Decode.{
  Field, Packet, ok, as_string, nbytes_from, body, new, read_full, add_to_first, split_nul,
  but_last, read,
}

-- No byte of a string is zero.
abbrev pub NoNul : Bytes → Type 0
NoNul = All (λ c. c ≢ 0)

abbrev pub strings : List Field → List Bytes
strings = map as_string

nbytes_from-body : (n : ℕ) (fs : List Field) → nbytes_from n fs ≡ n + length (body fs)
unfolding nbytes_from body
nbytes_from-body n [] = omega arith
nbytes_from-body n (f ∷ fs) = omega (
  arith,
  nbytes_from-body (n + length (as_string f) + 1) fs,
  length-append (as_string f) (0 ∷ body fs),
)

pub take-append {ℓ} : {A : Type ℓ} (xs ys : List A) → take (length xs) (xs ++ ys) ≡ xs
take-append [] ys = refl
take-append (x ∷ xs) ys = ap (◌∷◌ x) (take-append xs ys)

pub drop-append {ℓ} : {A : Type ℓ} (xs ys : List A) → drop (length xs) (xs ++ ys) ≡ ys
drop-append [] ys = refl
drop-append (x ∷ xs) ys = drop-append xs ys

length-drop {ℓ} : {A : Type ℓ} (n : ℕ) (xs : List A) → length (drop n xs) ≡ length xs - n
length-drop zero xs = omega arith
length-drop (suc n) [] = omega arith
length-drop (suc n) (x ∷ xs) = omega (arith, length-drop n xs)

pub read_full-append : (xs ys : Bytes) → read_full (length xs) (xs ++ ys) ≡ ok (xs, ys)
unfolding read_full
read_full-append xs ys = ground (arith, take-append xs ys, drop-append xs ys, length-append xs ys)

split_nul-cons_string :
    (s rest : Bytes) → NoNul s → split_nul (s ++ (0 ∷ rest)) ≡ s ∷ split_nul rest
unfolding split_nul
split_nul-cons_string [] rest h = refl
split_nul-cons_string (c ∷ s) rest h = ground (arith, split_nul-cons_string s rest h.1)

add_to_first-ne-nil : (c : ℕ) (ss : List Bytes) → add_to_first c ss ≢ []
unfolding add_to_first
add_to_first-ne-nil c [] e = cc
add_to_first-ne-nil c (s ∷ ss) e = cc

split_nul-ne-nil : (s : Bytes) → split_nul s ≢ []
unfolding split_nul
split_nul-ne-nil [] e = cc
split_nul-ne-nil (c ∷ s) e = elim (Bool-cases (c == 0)) [
  | inl h ↦ cc (rw h at e)
  | inr h ↦ add_to_first-ne-nil c (split_nul s) (rw h at e)
]

but_last-cons : (s : Bytes) (ss : List Bytes) → ss ≢ [] → but_last (s ∷ ss) ≡ s ∷ but_last ss
unfolding but_last
but_last-cons s [] h = absurd (h refl)
but_last-cons s (t ∷ ss) h = refl

but_last-split_nul-body :
    (fs : List Field) → All NoNul (strings fs) → but_last (split_nul (body fs)) ≡ strings fs
unfolding body
but_last-split_nul-body [] h = unfold split_nul but_last in refl
but_last-split_nul-body (f ∷ fs) h = rw (
  split_nul-cons_string (as_string f) (body fs) h.0,
  but_last-cons (as_string f) (split_nul (body fs)) (split_nul-ne-nil (body fs)),
  but_last-split_nul-body fs h.1,
)

body-pos : (fs : List Field) → fs ≢ [] → 0 < length (body fs)
unfolding body
body-pos [] h = absurd (h refl)
body-pos (f ∷ fs) h = omega (arith, length-append (as_string f) (0 ∷ body fs))

-- What `New` builds: the length and the body.
new-some :
    (fs : List Field) {bytes : Bytes}
    → new fs ≡ some bytes
    → let n = 2 + length (body fs) in bytes ≡ (n / 256 % 256) ∷ (n % 256) ∷ body fs
unfolding new
new-some fs h = ground (arith, nbytes_from-body 2 fs)

pub read_frame :
    (a b : ℕ) (s rest : Bytes)
    → 0 < length s
    → a * 256 + b ≡ length s + 2
    → read (a ∷ b ∷ (s ++ rest)) ≡ ok (record { raw_data = but_last (split_nul s) }, rest)
unfolding read
read_frame a b s rest p e =
    ground (arith, read_full-append (a ∷ b ∷ []) (s ++ rest), read_full-append s rest)

pub length-new :
    (fs : List Field) {bytes : Bytes} → new fs ≡ some bytes → length bytes ≡ 2 + length (body fs)
length-new fs h = omega (arith, ap length (new-some fs h))

read_full-two : (a b : ℕ) (r : Bytes) → read_full 2 (a ∷ b ∷ r) ≡ ok (a ∷ b ∷ [], r)
read_full-two a b r = read_full-append (a ∷ b ∷ []) r

-- `Read` takes from the stream as many bytes as the packet's length says.
length-read :
    (a b : ℕ) (r left : Bytes) (p : Packet)
    → read (a ∷ b ∷ r) ≡ ok (p, left)
    → length left + (a * 256 + b) ≡ length r + 2
unfolding read
length-read a b r left p h = ground (arith, length-drop (a * 256 + b - 2) r, read_full-two a b r)

-- A packet that `New` builds is read back by `Read`, whatever follows it on the stream, if it has at least one
-- value, no string in it has a zero byte, and it is shorter than 65536 bytes: the result holds the values'
-- strings in order, and what follows is left on the stream.
pub read-new :
    (fs : List Field) (bytes rest : Bytes)
    → fs ≢ []
    → All NoNul (strings fs)
    → new fs ≡ some bytes
    → length bytes < 65536
    → read (bytes ++ rest) ≡ ok (record { raw_data = strings fs }, rest)
read-new fs bytes rest ne nul made short =
    let pos_body = body-pos fs ne in
    let n = length-new fs made in
    rw (new-some fs made)
      (read_frame _ _ (body fs) rest pos_body (omega arith) ∙ rw (but_last-split_nul-body fs nul))

-- A packet of 65536 bytes or more, which `New` builds with no error, is never read back whole: if `Read`
-- succeeds on it, it leaves bytes of the packet on the stream, before those that follow it.
pub read-new_too_long :
    (fs : List Field) (bytes rest left : Bytes) (p : Packet)
    → new fs ≡ some bytes
    → 65536 ≤ length bytes
    → read (bytes ++ rest) ≡ ok (p, left)
    → length rest < length left
read-new_too_long fs bytes rest left p made long h =
    let n = length-new fs made in
    omega (
      arith,
      length-read _ _ (body fs ++ rest) left p (rw (new-some fs made) at h),
      length-append (body fs) rest,
    )
