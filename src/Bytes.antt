-- ===== src/Bytes.antt =====
-- Byte strings and ids. `web/ws_client.js` (u8hex, hexU8, uuidToBytes, concatU8),
-- `web/webrtc.js` and `web/group_call.js` (hexOf, hexToBytes, uuidFromBytes).
-- A Uint8Array is a list of numbers below 256, a text the list of its UTF-16 code units.
pub mod Hex
pub mod Uuid
pub mod Word
pub mod Base64
use tele.Prelude.{
  ℕ, zero, suc, ◌+◌, ◌-◌, ◌*◌, ◌/◌, ◌%◌, ◌<◌, Bool, true, false, ◌&&◌, ◌||◌, Option, none, some,
  List, [], ◌∷◌, ◌++◌, ltb, leb, ◌==◌, if◌then◌else◌, length, take, drop, slice, All,
}

abbrev pub Text : Type 0
Text = List ℕ

abbrev pub Bytes : Type 0
Bytes = List ℕ

abbrev pub AreBytes : Bytes → Type 0
AreBytes = All (λ b. b < 256)

-- One digit of `toString(16)`.
unfoldable pub hex_digit : ℕ → ℕ
hex_digit n = if ltb n 10 then b'0' + n else b'a' + (n - 10)

-- hexOf, u8hex: `b.toString(16).padStart(2, '0')` of each byte.
unfoldable pub hex_of : Bytes → Text
unfolding hex_digit
hex_of [] = []
hex_of (b ∷ bs) = hex_digit (b / 16) ∷ hex_digit (b % 16) ∷ hex_of bs

unfoldable pub hex_val : ℕ → Option ℕ
hex_val c =
    if leb b'0' c && leb c b'9'
    then some (c - b'0')
    else if leb b'a' c && leb c b'f'
    then some (c - b'a' + 10)
    else if leb b'A' c && leb c b'F'
    then some (c - b'A' + 10)
    else none

-- The white space of `trim` and `parseInt`.
unfoldable pub is_space : ℕ → Bool
is_space c =
    leb 9 c && leb c 13
    || c == 32
    || c == 160
    || c == 0x1680
    || leb 0x2000 c && leb c 0x200a
    || c == 0x2028
    || c == 0x2029
    || c == 0x202f
    || c == 0x205f
    || c == 0x3000
    || c == 0xfeff

-- `out[i] = parseInt(s, 16)` for a text of at most two characters: the longest prefix of digits
-- counts, NaN is stored as 0, and a negative value wraps.
unfoldable pub parse_byte : Text → ℕ
unfolding hex_val is_space
parse_byte [] = 0
parse_byte (c ∷ []) = elim (hex_val c) [ none ↦ 0 | some a ↦ a ]
parse_byte (c ∷ d ∷ _) = elim (hex_val c) [
  | some a ↦ elim (hex_val d) [ none ↦ a | some b ↦ a * 16 + b ]
  | none ↦ elim (hex_val d) [
    | none ↦ 0
    | some b ↦ if is_space c || c == b'+' then b else if c == b'-' then (256 - b) % 256 else 0
  ]
]

-- `for (i = 0; i < n; i++) out[i] = parseInt(hex.substr(i * 2, 2), 16)`
unfoldable pub bytes_of_hex : ℕ → Text → Bytes
unfolding parse_byte
bytes_of_hex zero hex = []
bytes_of_hex (suc n) hex = parse_byte (take 2 hex) ∷ bytes_of_hex n (drop 2 hex)

-- hexToBytes
unfoldable pub hex_to_bytes : Text → Bytes
unfolding bytes_of_hex
hex_to_bytes hex = bytes_of_hex (length hex / 2) hex

-- What `.` of a regular expression does not match.
unfoldable pub is_line_break : ℕ → Bool
is_line_break c = c == 10 || c == 13 || c == 0x2028 || c == 0x2029

-- hexU8: one byte for each match of `/.{1,2}/g`.
unfoldable pub hex_u8 : Text → Bytes
unfolding parse_byte is_line_break
hex_u8 [] = []
hex_u8 (c ∷ []) = if is_line_break c then [] else parse_byte (c ∷ []) ∷ []
hex_u8 (c ∷ d ∷ hex) =
    let skip = hex_u8 (d ∷ hex) in
    let rest = hex_u8 hex in
    if is_line_break c
    then skip
    else if is_line_break d
    then parse_byte (c ∷ []) ∷ rest
    else parse_byte (c ∷ d ∷ []) ∷ rest

-- `uuid.replace(/-/g, '')`
unfoldable pub strip_dashes : Text → Text
strip_dashes [] = []
strip_dashes (c ∷ cs) = let rest = strip_dashes cs in if c == b'-' then rest else c ∷ rest

-- uuidToBytes, uuidToBytes16
unfoldable pub uuid_to_bytes : Text → Bytes
unfolding bytes_of_hex strip_dashes
uuid_to_bytes uuid = bytes_of_hex 16 (strip_dashes uuid)

-- The template of uuidFromBytes: 8-4-4-4-12.
unfoldable pub dashed : Text → Text
dashed s =
    slice 0 8 s
    ++ (b'-'
        ∷ (slice 8 12 s
            ++ (b'-' ∷ (slice 12 16 s ++ (b'-' ∷ (slice 16 20 s ++ (b'-' ∷ drop 20 s)))))))

-- uuidFromBytes. It reads sixteen bytes; its callers check the length first.
unfoldable pub uuid_from_bytes : Bytes → Text
unfolding dashed hex_of
uuid_from_bytes u8 = dashed (hex_of (take 16 u8))

-- concatU8
unfoldable pub concat_u8 : List Bytes → Bytes
concat_u8 [] = []
concat_u8 (a ∷ arr) = a ++ concat_u8 arr

-- `setUint32(off, n, true)`: four bytes, the lowest first.
unfoldable pub u32_le : ℕ → Bytes
u32_le n = n % 256 ∷ n / 256 % 256 ∷ n / 65536 % 256 ∷ n / 16777216 % 256 ∷ []

-- `getUint32(0, true)` of four bytes.
unfoldable pub get_u32_le : Bytes → ℕ
get_u32_le (a ∷ b ∷ c ∷ d ∷ _) = a + b * 256 + c * 65536 + d * 16777216
get_u32_le _ = 0

-- `s.startsWith(n)`.
unfoldable pub starts_with : Text → Text → Bool
starts_with [] s = true
starts_with (n ∷ needle) [] = false
starts_with (n ∷ needle) (c ∷ s) = n == c && starts_with needle s

-- `s.includes(n)`, and `/n/.test(s)` for an `n` with no special character.
unfoldable pub contains : Text → Text → Bool
unfolding starts_with
contains needle [] = starts_with needle []
contains needle (c ∷ s) = starts_with needle (c ∷ s) || contains needle s
