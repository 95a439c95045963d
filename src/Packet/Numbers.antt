-- ===== src/Packet/Numbers.antt =====
-- packet.go: the integers and Booleans that a packet carries come back as they were sent.
use widelands_metaserver.Base.{
  ℕ, zero, suc, ◌+◌, ◌/◌, ◌%◌, ◌^◌, ◌<◌, ◌≡◌, refl, ◌∙◌, Bool, true, false, some, List, [], ◌∷◌,
  ◌++◌, append_assoc, append-nil, arith, ltb, Bool-cases, inl, inr, Bytes, ℤ, pos, negsuc, str,
  bytes_eq,
}
use widelands_metaserver.Packet.Decimal.{
  decimal, itoa, is_digit, digits_value, unsigned_value, positive, negative, atoi,
}
use widelands_metaserver.Packet.Decode.{
  int, text, bool, Packet, ok, as_string, read_string, read_int, read_bool,
}

digits_value-decimal :
    (f n : ℕ) (ys : Bytes) → n < f → digits_value 0 (decimal f n ++ ys) ≡ digits_value n ys
unfolding digits_value decimal
digits_value-decimal zero n ys h = elim h [ ]
digits_value-decimal (suc f) n ys h = elim (Bool-cases (ltb n 10)) [
  | inl small ↦ rw small (ground arith)
  | inr large ↦
      rw (large, append_assoc) (digits_value-decimal f (n / 10) _ (ground arith) ∙ ground arith)
]

decimal-Starts :
    (f n : ℕ) → n < f → (c : ℕ) × (cs : Bytes) × (decimal f n ≡ c ∷ cs) × (is_digit c ≡ true)
unfolding decimal is_digit
decimal-Starts zero n h = elim h [ ]
decimal-Starts (suc f) n h = elim (Bool-cases (ltb n 10)) [
  | inl small ↦ (b'0' + n, [], rw small, ground arith)
  | inr large ↦
      let (c, cs, e, d) = decimal-Starts f (n / 10) (ground arith) in
      (c, cs ++ (b'0' + n % 10) ∷ [], rw (large, e), d)
]

unsigned_value-decimal : (n : ℕ) → unsigned_value (decimal (suc n) n) ≡ some n
unfolding unsigned_value
unsigned_value-decimal n =
    let (c, cs, e, d) = decimal-Starts (suc n) n (omega arith) in
    rw e (
      rw (← e) (
        rw (← append-nil (decimal (suc n) n))
          (digits_value-decimal (suc n) n [] (omega arith) ∙ unfold digits_value in refl)))

atoi_of_digit :
    (c : ℕ) (cs : Bytes) → is_digit c ≡ true → atoi (c ∷ cs) ≡ positive (unsigned_value (c ∷ cs))
unfolding atoi is_digit
atoi_of_digit c cs d = ground arith

atoi-decimal : (n : ℕ) → atoi (decimal (suc n) n) ≡ positive (unsigned_value (decimal (suc n) n))
atoi-decimal n =
    let (c, cs, e, d) = decimal-Starts (suc n) n (omega arith) in rw e (atoi_of_digit c cs d)

-- In 64 bits.
abbrev pub Fits : ℤ → Type 0
Fits (pos n) = n < 2 ^ 63
Fits (negsuc n) = n < 2 ^ 63

-- Atoi reads back what Itoa prints, for every 64-bit integer.
pub atoi-itoa : (i : ℤ) → Fits i → atoi (itoa i) ≡ some i
unfolding atoi itoa positive negative
atoi-itoa (pos n) h = atoi-decimal n ∙ rw (unsigned_value-decimal n) (ground arith)
atoi-itoa (negsuc n) h = rw (unsigned_value-decimal (suc n)) (ground arith)

abbrev pub packet : List Bytes → Packet
packet ss = record { raw_data = ss }

read_bool-bool :
    (b : Bool) (rest : List Bytes)
    → read_bool (packet (as_string (bool b) ∷ rest)) ≡ ok (b, packet rest)
unfolding read_bool as_string str bytes_eq
read_bool-bool true rest = refl
read_bool-bool false rest = refl

-- What `Unpack` reads for a value that `New` was given, followed by others: the value, and the rest of the packet. The
-- integers are of 64 bits.
pub read-as_string :
    (i : ℤ) (b : Bool) (s : Bytes) (rest : List Bytes)
    → Fits i
    → (read_int (packet (as_string (int i) ∷ rest)) ≡ ok (i, packet rest))
      × (read_bool (packet (as_string (bool b) ∷ rest)) ≡ ok (b, packet rest))
      × (read_string (packet (as_string (text s) ∷ rest)) ≡ ok (s, packet rest))
unfolding read_int read_bool read_string as_string
read-as_string i b s rest h = (ground (arith, atoi-itoa i h), read_bool-bool b rest, refl)
