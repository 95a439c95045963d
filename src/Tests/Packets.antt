-- ===== src/Tests/Packets.antt =====
-- The packets of wlms.
use widelands_metaserver.Base.{
  ℕ, true, some, List, [], ◌∷◌, ◌++◌, ◌≡◌, ◌<◌, ◌≤◌, refl, arith, pos, Bytes, length, replicate,
  length-replicate, length-append,
}
use widelands_metaserver.Packet.{
  Field, int, text, bool, ok, new, read, as_string, read_int, read_bool, read_string, itoa, decimal,
  encodable, nbytes_from, body, but_last, split_nul,
}
use widelands_metaserver.Packet.RoundTrip.{strings, read_frame, read-new, read-new_too_long}
use widelands_metaserver.Packet.Numbers.{packet, read-as_string}

abbrev short_fields : List Field
short_fields = text (b'P' ∷ b'I' ∷ []) ∷ int (pos 7) ∷ []

abbrev short_bytes : Bytes
short_bytes = 0 ∷ 7 ∷ b'P' ∷ b'I' ∷ 0 ∷ b'7' ∷ 0 ∷ []

read-new_example :
    read (short_bytes ++ (1 ∷ 2 ∷ [])) ≡ ok (record { raw_data = strings short_fields }, 1 ∷ 2 ∷ [])
unfolding new encodable nbytes_from body as_string itoa decimal
read-new_example =
    read-new short_fields short_bytes (1 ∷ 2 ∷ []) (λ e. cc)
      ((λ e. cc, (λ e. cc, tt)), ((λ e. cc, tt), tt)) refl (omega arith)

read-as_string_example :
    (read_int (packet (as_string (int (pos 7)) ∷ [])) ≡ ok (pos 7, packet []))
    × (read_bool (packet (as_string (bool true) ∷ [])) ≡ ok (true, packet []))
    × (read_string (packet (as_string (text (b'z' ∷ [])) ∷ [])) ≡ ok (b'z' ∷ [], packet []))
read-as_string_example = read-as_string (pos 7) true (b'z' ∷ []) [] (omega arith)

-- A text of 65536 bytes.
unfoldable long_text : Bytes
long_text = replicate 65536 b'x'

unfoldable long_rest : Bytes
long_rest = replicate 65535 b'x'

long_text_cons : long_text ≡ b'x' ∷ long_rest
unfolding long_text long_rest
long_text_cons = refl

length-long_text : length long_text ≡ 65536
unfolding long_text
length-long_text = length-replicate {A = ℕ} 65536 b'x'

abbrev long_bytes : Bytes
long_bytes = 0 ∷ 3 ∷ (long_text ++ (0 ∷ []))

long_made : new (text long_text ∷ []) ≡ some long_bytes
unfolding new encodable nbytes_from body as_string
long_made = rw length-long_text refl

length-long_bytes : 65536 ≤ length long_bytes
length-long_bytes = omega (arith, length-append long_text (0 ∷ []), length-long_text)

-- The length that is sent is 3: the packet is read as empty.
long_read : read (long_bytes ++ []) ≡ ok (record { raw_data = [] }, (long_rest ++ (0 ∷ [])) ++ [])
unfolding but_last split_nul
long_read =
    rw long_text_cons
      (read_frame 0 3 (b'x' ∷ []) ((long_rest ++ (0 ∷ [])) ++ []) (omega arith) (omega arith))

read-new_too_long_example : length {A = ℕ} [] < length ((long_rest ++ (0 ∷ [])) ++ [])
read-new_too_long_example =
    read-new_too_long (text long_text ∷ []) long_bytes [] ((long_rest ++ (0 ∷ [])) ++ [])
      (record { raw_data = [] }) long_made length-long_bytes long_read
