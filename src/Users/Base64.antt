-- ===== src/Users/Base64.antt =====
-- wlms/userdb.go: base64.StdEncoding.DecodeString, with which the stored hashes are read.
use widelands_metaserver.Base.{
  ℕ, ◌+◌, ◌-◌, ◌*◌, ◌/◌, ◌%◌, ◌<◌, Bool, true, false, ◌&&◌, ◌||◌, Option, none, some, [], ◌∷◌, ◌++◌,
  leb, ◌==◌, if◌then◌else◌, Bytes, All, ◌≡◌, refl, arith, All-append,
}

infixl 5 ◌>>=◌
abbrev ◌>>=◌ {ℓ κ} : {A : Type ℓ} {B : Type κ} → Option A → (A → Option B) → Option B
none >>= f = none
some a >>= f = f a

abbrev between : ℕ → ℕ → ℕ → Bool
between lo hi c = leb lo c && leb c hi

-- The number of a letter of the alphabet.
unfoldable pub sextet : ℕ → Option ℕ
sextet c =
    if between b'A' b'Z' c
    then some (c - b'A')
    else if between b'a' b'z' c
    then some (c - b'a' + 26)
    else if between b'0' b'9' c
    then some (c - b'0' + 52)
    else if c == b'+'
    then some 62
    else if c == b'/'
    then some 63
    else none

-- The decoder passes over line breaks.
unfoldable pub skip_breaks : Bytes → Bytes
skip_breaks [] = []
skip_breaks (c ∷ cs) = if (c == b'\n') || (c == b'\r') then skip_breaks cs else c ∷ skip_breaks cs

-- The bytes of four letters, of three with one `=`, and of two with two.
abbrev first_byte : ℕ → ℕ → ℕ
first_byte a b = a * 4 + b / 16

abbrev second_byte : ℕ → ℕ → ℕ
second_byte b c = b % 16 * 16 + c / 4

abbrev third_byte : ℕ → ℕ → ℕ
third_byte c d = c % 4 * 64 + d

-- Four letters.
unfoldable pub whole_group : ℕ → ℕ → ℕ → ℕ → Option Bytes
whole_group a b c d = do
  x ← sextet a
  y ← sextet b
  z ← sextet c
  w ← sextet d
  some (first_byte x y ∷ second_byte y z ∷ third_byte z w ∷ [])

-- The bytes of a padded group, by its third and fourth letter.
unfoldable pub one_or_two : ℕ → ℕ → Bool → Bool → Option ℕ → Option Bytes
one_or_two x y true true z = some (first_byte x y ∷ [])
one_or_two x y false true (some z) = some (first_byte x y ∷ second_byte y z ∷ [])
one_or_two x y _ _ _ = none

-- Three letters and one `=`, or two and two.
unfoldable pub padded_group : ℕ → ℕ → ℕ → ℕ → Option Bytes
padded_group a b c d = do
  x ← sextet a
  y ← sextet b
  one_or_two x y (c == b'=') (d == b'=') (sextet c)

-- Nothing may follow a padded group, and no letter may be left over.
unfoldable pub decode_groups : Bytes → Option Bytes
decode_groups [] = some []
decode_groups (a ∷ b ∷ c ∷ d ∷ r) =
    let rest = decode_groups r in
    elim (whole_group a b c d) [
      | some bytes ↦ elim rest [ none ↦ none | some more ↦ some (bytes ++ more) ]
      | none ↦ elim r [ [] ↦ padded_group a b c d | _ ∷ _ ↦ none ]
    ]
decode_groups _ = none

-- DecodeString
unfoldable pub decode_string : Bytes → Option Bytes
decode_string s = decode_groups (skip_breaks s)

-- What holds of the value, if there is one.
abbrev pub Gives {ℓ κ} : {A : Type ℓ} → (A → Type κ) → Option A → Type κ
Gives P none = Unit
Gives P (some a) = P a

Gives-bind {ℓ κ μ} :
    {A : Type ℓ} {B : Type κ} (P : B → Type μ) (o : Option A) (f : A → Option B)
    → ((a : A) → o ≡ some a → Gives P (f a))
    → Gives P (o >>= f)
Gives-bind P none f h = tt
Gives-bind P (some a) f h = h a refl

sextet_below : (c x : ℕ) → sextet c ≡ some x → x < 64
unfolding sextet
sextet_below c x h = ground arith

abbrev pub AreBytes : Bytes → Type 0
AreBytes = All (λ b. b < 256)

whole_group-AreBytes : (a b c d : ℕ) → Gives AreBytes (whole_group a b c d)
unfolding whole_group
whole_group-AreBytes a b c d = Gives-bind AreBytes (sextet a) _ λ x ex.
    Gives-bind AreBytes (sextet b) _ λ y ey. Gives-bind AreBytes (sextet c) _ λ z ez.
      Gives-bind AreBytes (sextet d) _ λ w ew.
        let lx = sextet_below a x ex in
        let ly = sextet_below b y ey in
        let lz = sextet_below c z ez in
        let lw = sextet_below d w ew in
        (omega (arith, lx, ly), (omega (arith, ly, lz), (omega (arith, lz, lw), tt)))

one_or_two-AreBytes :
    (x y : ℕ) (p q : Bool) (o : Option ℕ)
    → x < 64
    → y < 64
    → ((z : ℕ) → o ≡ some z → z < 64)
    → Gives AreBytes (one_or_two x y p q o)
unfolding one_or_two
one_or_two-AreBytes x y true true o lx ly lo = (omega (arith, lx, ly), tt)
one_or_two-AreBytes x y false true (some z) lx ly lo =
    let lz = lo z refl in (omega (arith, lx, ly), (omega (arith, ly, lz), tt))
one_or_two-AreBytes x y false true none lx ly lo = tt
one_or_two-AreBytes x y true false o lx ly lo = tt
one_or_two-AreBytes x y false false o lx ly lo = tt

padded_group-AreBytes : (a b c d : ℕ) → Gives AreBytes (padded_group a b c d)
unfolding padded_group
padded_group-AreBytes a b c d = Gives-bind AreBytes (sextet a) _ λ x ex.
    Gives-bind AreBytes (sextet b) _ λ y ey.
      one_or_two-AreBytes x y (c == b'=') (d == b'=') (sextet c) (sextet_below a x ex)
        (sextet_below b y ey) (sextet_below c)

decode_groups-AreBytes : (s : Bytes) → Gives AreBytes (decode_groups s)
unfolding decode_groups
decode_groups-AreBytes [] = tt
decode_groups-AreBytes (a ∷ []) = tt
decode_groups-AreBytes (a ∷ b ∷ []) = tt
decode_groups-AreBytes (a ∷ b ∷ c ∷ []) = tt
decode_groups-AreBytes (a ∷ b ∷ c ∷ d ∷ r) =
    let later = decode_groups-AreBytes r in
    let now = whole_group-AreBytes a b c d in
    let last = padded_group-AreBytes a b c d in
    go r (whole_group a b c d) (decode_groups r) now later last
  where
    go :
        (r : Bytes) (w : Option Bytes) (rest : Option Bytes)
        → Gives AreBytes w
        → Gives AreBytes rest
        → Gives AreBytes (padded_group a b c d)
        → Gives AreBytes (elim w [
          | some bytes ↦ elim rest [ none ↦ none | some more ↦ some (bytes ++ more) ]
          | none ↦ elim r [ [] ↦ padded_group a b c d | _ ∷ _ ↦ none ]
        ])
    go r (some bytes) none h k l = tt
    go r (some bytes) (some more) h k l = All-append _ bytes more h k
    go [] none rest h k l = l
    go (_ ∷ _) none rest h k l = tt

-- What is decoded is a sequence of bytes.
pub decode_string-AreBytes : (s : Bytes) → Gives AreBytes (decode_string s)
unfolding decode_string
decode_string-AreBytes s = decode_groups-AreBytes (skip_breaks s)
