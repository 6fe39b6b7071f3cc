-- ===== src/Bytes/Hex.antt =====
-- Ids and their hex texts: hexOf against hexToBytes and hexU8.
use tele.Prelude.{
  ℕ, ◌*◌, ◌/◌, ◌%◌, ◌<◌, ◌≡◌, refl, sym, ap, ◌∙◌, false, some, [], ◌∷◌, arith, length,
}
use tele.Bytes.{
  Bytes, AreBytes, hex_digit, hex_of, hex_val, parse_byte, bytes_of_hex, hex_to_bytes,
  is_line_break, hex_u8,
}

pub hex_val-hex_digit : (n : ℕ) → n < 16 → hex_val (hex_digit n) ≡ some n
unfolding hex_val hex_digit
hex_val-hex_digit n h = ground arith

parse_byte-hex : (b : ℕ) → b < 256 → parse_byte (hex_digit (b / 16) ∷ hex_digit (b % 16) ∷ []) ≡ b
unfolding parse_byte
parse_byte-hex b h = ground (arith, hex_val-hex_digit (b / 16), hex_val-hex_digit (b % 16))

pub length-hex_of : (bs : Bytes) → length (hex_of bs) ≡ 2 * length bs
unfolding hex_of
length-hex_of [] = refl
length-hex_of (b ∷ bs) = omega (arith, length-hex_of bs)

pub bytes_of_hex-hex_of : (bs : Bytes) → AreBytes bs → bytes_of_hex (length bs) (hex_of bs) ≡ bs
unfolding bytes_of_hex hex_of
bytes_of_hex-hex_of [] h = refl
bytes_of_hex-hex_of (b ∷ bs) h = cc (parse_byte-hex b h.0, bytes_of_hex-hex_of bs h.1)

pub bytes_of_hex-hex_of_at :
    (n : ℕ) (bs : Bytes) → length bs ≡ n → AreBytes bs → bytes_of_hex n (hex_of bs) ≡ bs
bytes_of_hex-hex_of_at n bs e h = rw (← e) (bytes_of_hex-hex_of bs h)

-- Reading back the hex of a byte string gives the byte string.
pub hex_to_bytes-hex_of : (bs : Bytes) → AreBytes bs → hex_to_bytes (hex_of bs) ≡ bs
unfolding hex_to_bytes
hex_to_bytes-hex_of bs h =
    let e : length (hex_of bs) / 2 ≡ length bs = omega (arith, length-hex_of bs) in
    rw e (bytes_of_hex-hex_of bs h)

digit_no_break : (n : ℕ) → n < 16 → is_line_break (hex_digit n) ≡ false
unfolding is_line_break hex_digit
digit_no_break n h = ground arith

pub hex_u8-hex_of : (bs : Bytes) → AreBytes bs → hex_u8 (hex_of bs) ≡ bs
unfolding hex_u8 hex_of
hex_u8-hex_of [] h = refl
hex_u8-hex_of (b ∷ bs) h =
    rw (digit_no_break (b / 16) (omega (arith, h.0)), digit_no_break (b % 16) (omega arith))
      (cc (parse_byte-hex b h.0, hex_u8-hex_of bs h.1))

-- Two byte strings with one hex text are equal: ids may be compared by their hex.
pub hex_of-injective : (xs bs : Bytes) → AreBytes xs → AreBytes bs → hex_of xs ≡ hex_of bs → xs ≡ bs
hex_of-injective xs bs ha hb e =
    sym (hex_to_bytes-hex_of xs ha) ∙ ap hex_to_bytes e ∙ hex_to_bytes-hex_of bs hb
