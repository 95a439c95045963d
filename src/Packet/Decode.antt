-- ===== src/Packet/Decode.antt =====
-- The functions of packet.go.
use widelands_metaserver.Base.{
  ℕ, ◌+◌, ◌-◌, ◌*◌, ◌/◌, ◌%◌, Bool, true, false, ◌||◌, Option, none, some, List, [], ◌∷◌, ◌++◌, leb,
  ◌==◌, if◌then◌else◌, length, take, drop, ℤ, Bytes, str, bytes_eq,
}
use widelands_metaserver.Packet.Decimal.{itoa, atoi}

-- A value that `New` is given, an `interface{}`: `null` is a nil interface.
pub data Field : Type 0 where
  int : ℤ → Field
  text : Bytes → Field
  bool : Bool → Field
  null : Field

-- The string that is sent for a value.
unfoldable pub as_string : Field → Bytes
as_string (int i) = itoa i
as_string (text s) = s
as_string (bool true) = str "true"
as_string (bool false) = str "false"
as_string null = []

-- The default case of the first loop of `New` is log.Fatalf, which ends the process.
unfoldable pub encodable : List Field → Bool
encodable [] = true
encodable (null ∷ fs) = false
encodable (_ ∷ fs) = encodable fs

unfoldable pub nbytes_from : ℕ → List Field → ℕ
unfolding as_string
nbytes_from n [] = n
nbytes_from n (f ∷ fs) = nbytes_from (n + length (as_string f) + 1) fs

unfoldable pub body : List Field → Bytes
unfolding as_string
body [] = []
body (f ∷ fs) = as_string f ++ (0 ∷ body fs)

-- packet.New: `none` where the process ends.
unfoldable pub new : List Field → Option Bytes
unfolding encodable nbytes_from body
new fs =
    let nbytes = nbytes_from 2 fs in
    if encodable fs then some ((nbytes / 256 % 256) ∷ (nbytes % 256) ∷ body fs) else none

pub record Packet : Type 0 where
  pub raw_data : List Bytes

-- An error as the text of its message, or the end of the stream.
pub data Parsed {ℓ} (A : Type ℓ) : Type ℓ where
  ok : A → Parsed A
  err : Bytes → Parsed A

infixl 5 ◌>>=◌
abbrev pub ◌>>=◌ {ℓ κ} : {A : Type ℓ} {B : Type κ} → Parsed A → (A → Parsed B) → Parsed B
ok a >>= f = f a
err e >>= f = err e

-- io.ReadFull for n bytes, with the rest of the stream.
unfoldable pub read_full : ℕ → Bytes → Parsed (Bytes × Bytes)
read_full n r =
    if leb n (length r)
    then ok (take n r, drop n r)
    else err (if length r == 0 then str "EOF" else str "unexpected EOF")

unfoldable pub two_bytes : Bytes → ℕ
two_bytes [] = 0
two_bytes (a ∷ []) = 0
two_bytes (a ∷ b ∷ _) = a * 256 + b

-- readInt
unfoldable pub read_length : Bytes → Parsed (ℕ × Bytes)
unfolding read_full two_bytes
read_length r = do (buf, rest) ← read_full 2 r; ok (two_bytes buf, rest)

-- readString
unfoldable pub read_body : Bytes → ℕ → Parsed (Bytes × Bytes)
unfolding read_full
read_body r nlen = if nlen == 0 then err (str "length too short") else read_full nlen r

unfoldable pub add_to_first : ℕ → List Bytes → List Bytes
add_to_first c [] = (c ∷ []) ∷ []
add_to_first c (s ∷ ss) = (c ∷ s) ∷ ss

-- strings.Split(s, "\x00")
unfoldable pub split_nul : Bytes → List Bytes
unfolding add_to_first
split_nul [] = [] ∷ []
split_nul (c ∷ cs) = let rest = split_nul cs in if c == 0 then [] ∷ rest else add_to_first c rest

-- The slice [:len-1]: what follows the last zero byte is dropped.
unfoldable pub but_last : List Bytes → List Bytes
but_last [] = []
but_last (s ∷ []) = []
but_last (s ∷ t ∷ ss) = s ∷ but_last (t ∷ ss)

-- packet.Read
unfoldable pub read : Bytes → Parsed (Packet × Bytes)
unfolding read_length read_body split_nul but_last
read r = do
  (nlen, r') ← read_length r
  if leb nlen 2
      then err (str "packet too short")
      else (read_body r' (nlen - 2) >>= λ (s, rest).
          ok (record { raw_data = but_last (split_nul s) }, rest))

unfoldable pub pop_string : List Bytes → Parsed (Bytes × Packet)
pop_string [] = err (str "No more RawData in the packet.")
pop_string (d ∷ ds) = ok (d, record { raw_data = ds })

unfoldable pub read_string : Packet → Parsed (Bytes × Packet)
unfolding pop_string
read_string p = pop_string p.raw_data

unfoldable pub read_int : Packet → Parsed (ℤ × Packet)
unfolding read_string
read_int p = do
  (d, p') ← read_string p
  elim (atoi d) [ none ↦ err (str "Invalid integer: '" ++ (d ++ str "'")) | some i ↦ ok (i, p') ]

unfoldable pub read_bool : Packet → Parsed (Bool × Packet)
unfolding read_string
read_bool p = do
  (d, p') ← read_string p
  if bytes_eq d (str "0") || bytes_eq d (str "false")
      then ok (false, p')
      else if bytes_eq d (str "1") || bytes_eq d (str "true")
      then ok (true, p')
      else err (str "Invalid bool: '" ++ (d ++ str "'"))
