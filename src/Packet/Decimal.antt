-- ===== src/Packet/Decimal.antt =====
-- The decimal print and parse of Go's strconv, which packet.go uses for its integers.
use widelands_metaserver.Base.{
  ℕ, zero, suc, ◌+◌, ◌-◌, ◌*◌, ◌/◌, ◌%◌, ◌^◌, Bool, ◌&&◌, Option, none, some, [], ◌∷◌, ◌++◌, ltb,
  leb, ◌==◌, if◌then◌else◌, ℤ, pos, negsuc, Bytes,
}

-- The digits of n, the most significant first; fuel above n is enough.
unfoldable pub decimal : ℕ → ℕ → Bytes
decimal zero n = []
decimal (suc f) n =
    let rest = decimal f (n / 10) in
    if ltb n 10 then (b'0' + n) ∷ [] else rest ++ (b'0' + n % 10) ∷ []

-- strconv.Itoa
unfoldable pub itoa : ℤ → Bytes
itoa (pos n) = decimal (suc n) n
itoa (negsuc n) = b'-' ∷ decimal (suc (suc n)) (suc n)

unfoldable pub is_digit : ℕ → Bool
is_digit c = leb b'0' c && leb c b'9'

-- The number that digits stand for, after those that gave `acc`.
unfoldable pub digits_value : ℕ → Bytes → Option ℕ
unfolding is_digit
digits_value acc [] = some acc
digits_value acc (c ∷ cs) =
    let rest = digits_value (acc * 10 + (c - b'0')) cs in if is_digit c then rest else none

unfoldable pub unsigned_value : Bytes → Option ℕ
unsigned_value [] = none
unsigned_value (c ∷ cs) = digits_value 0 (c ∷ cs)

-- An `int` has 64 bits: what is outside is an error.
unfoldable pub positive : Option ℕ → Option ℤ
positive none = none
positive (some n) = if ltb n (2 ^ 63) then some (pos n) else none

unfoldable pub negative : Option ℕ → Option ℤ
negative none = none
negative (some zero) = some (pos 0)
negative (some (suc n)) = if ltb n (2 ^ 63) then some (negsuc n) else none

-- strconv.Atoi
unfoldable pub atoi : Bytes → Option ℤ
atoi [] = none
atoi (c ∷ cs) =
    if c == b'-'
    then negative (unsigned_value cs)
    else if c == b'+'
    then positive (unsigned_value cs)
    else positive (unsigned_value (c ∷ cs))
