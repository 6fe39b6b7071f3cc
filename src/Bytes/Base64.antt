-- ===== src/Bytes/Base64.antt =====
-- Base64 as the client uses it: `btoa` and `atob` of the browser with the loops around them, u8ToB64
-- and b64ToU8 of `web/keystore.js` and `web/app.js`, and the base64url form of invite codes.
pub mod Decoding
use tele.Prelude.{
  ℕ, zero, suc, ◌+◌, ◌-◌, ◌*◌, ◌/◌, ◌%◌, ◌≡◌, refl, Bool, ◌&&◌, ◌||◌, Option, none, some, [], ◌∷◌,
  ◌++◌, map, ltb, leb, ◌==◌, if◌then◌else◌, length,
}
use tele.Bytes.{Text, Bytes}

infixl 5 ◌>>=◌
abbrev pub ◌>>=◌ {ℓ κ} : {A : Type ℓ} {B : Type κ} → Option A → (A → Option B) → Option B
none >>= f = none
some a >>= f = f a

-- A chain that has a result has one at its first step.
pub >>=-eq-some {ℓ κ} :
    {A : Type ℓ} {B : Type κ} (m : Option A) (f : A → Option B) {b : B}
    → (m >>= f) ≡ some b
    → (a : A) × (m ≡ some a) × (f a ≡ some b)
>>=-eq-some none f h = cc
>>=-eq-some (some a) f h = (a, refl, h)

-- The character of a value below 64.
unfoldable pub b64_char : ℕ → ℕ
b64_char n =
    if ltb n 26
    then b'A' + n
    else if ltb n 52
    then b'a' + (n - 26)
    else if ltb n 62
    then b'0' + (n - 52)
    else if n == 62
    then b'+'
    else b'/'

unfoldable pub b64_val : ℕ → Option ℕ
b64_val c =
    if leb b'A' c && leb c b'Z'
    then some (c - b'A')
    else if leb b'a' c && leb c b'z'
    then some (c - b'a' + 26)
    else if leb b'0' c && leb c b'9'
    then some (c - b'0' + 52)
    else if c == b'+'
    then some 62
    else if c == b'/'
    then some 63
    else none

-- `btoa` of a text of bytes: three bytes make four characters, `=` fills the last four.
unfoldable pub btoa : Bytes → Text
unfolding b64_char
btoa [] = []
btoa (a ∷ []) = b64_char (a / 4) ∷ b64_char (a % 4 * 16) ∷ b'=' ∷ b'=' ∷ []
btoa (a ∷ b ∷ []) =
    b64_char (a / 4) ∷ b64_char (a % 4 * 16 + b / 16) ∷ b64_char (b % 16 * 4) ∷ b'=' ∷ []
btoa (a ∷ b ∷ c ∷ rest) =
    b64_char (a / 4)
    ∷ b64_char (a % 4 * 16 + b / 16)
    ∷ b64_char (b % 16 * 4 + c / 64)
    ∷ b64_char (c % 64)
    ∷ btoa rest

-- ASCII white space.
unfoldable pub is_blank : ℕ → Bool
is_blank c = c == 9 || c == 10 || c == 12 || c == 13 || c == 32

-- `atob` skips it.
unfoldable pub skip_space : Text → Text
unfolding is_blank
skip_space [] = []
skip_space (c ∷ s) = let rest = skip_space s in if is_blank c then rest else c ∷ rest

-- One or two `=` at the end of a text whose length is a multiple of four.
unfoldable pub unpad : Text → Text
unpad (a ∷ b ∷ c ∷ d ∷ s) =
    let rest = unpad s in
    elim s [
      | [] ↦
          if d == b'=' then if c == b'=' then a ∷ b ∷ [] else a ∷ b ∷ c ∷ [] else a ∷ b ∷ c ∷ d ∷ []
      | _ ∷ _ ↦ a ∷ b ∷ c ∷ d ∷ rest
    ]
unpad s = s

-- The values of the characters, put together; left-over bits are dropped.
unfoldable pub decode : Text → Option Bytes
unfolding b64_val
decode [] = some []
decode (a ∷ []) = none
decode (a ∷ b ∷ []) = do v ← b64_val a; w ← b64_val b; some ((v * 4 + w / 16) ∷ [])
decode (a ∷ b ∷ c ∷ []) = do
  v ← b64_val a
  w ← b64_val b
  x ← b64_val c
  some ((v * 4 + w / 16) ∷ (w % 16 * 16 + x / 4) ∷ [])
decode (a ∷ b ∷ c ∷ d ∷ s) = do
  v ← b64_val a
  w ← b64_val b
  x ← b64_val c
  y ← b64_val d
  rest ← decode s
  some ((v * 4 + w / 16) ∷ (w % 16 * 16 + x / 4) ∷ (x % 4 * 64 + y) ∷ rest)

-- `atob`; `none` is the exception.
unfoldable pub atob : Text → Option Bytes
unfolding skip_space unpad decode
atob s = decode (unpad (skip_space s))

-- u8ToB64: a byte per character, then `btoa`.
unfoldable pub u8_to_b64 : Bytes → Text
unfolding btoa
u8_to_b64 u8 = btoa u8

-- b64ToU8
unfoldable pub b64_to_u8 : Text → Option Bytes
unfolding atob
b64_to_u8 s = atob s

-- `.replace(/\+/g, '-').replace(/\//g, '_')` on one character.
unfoldable pub to_url : ℕ → ℕ
to_url c = if c == b'+' then b'-' else if c == b'/' then b'_' else c

-- `.replace(/-/g, '+').replace(/_/g, '/')` on one character.
unfoldable pub from_url : ℕ → ℕ
from_url c = if c == b'-' then b'+' else if c == b'_' then b'/' else c

-- `.replace(/=+$/, '')`
unfoldable pub strip_fill : Text → Text
strip_fill [] = []
strip_fill (c ∷ s) = elim (strip_fill s) [
  | [] ↦ if c == b'=' then [] else c ∷ []
  | d ∷ rest ↦ c ∷ d ∷ rest
]

-- `'='.repeat(n)`
unfoldable pub fill : ℕ → Text
fill zero = []
fill (suc n) = b'=' ∷ fill n

-- `s + '='.repeat((4 - s.length % 4) % 4)`
unfoldable pub pad : Text → Text
unfolding fill
pad s = s ++ fill ((4 - length s % 4) % 4)

-- base64url without padding.
unfoldable pub to_base64_url : Bytes → Text
unfolding btoa to_url strip_fill
to_base64_url u8 = strip_fill (map to_url (btoa u8))

-- urlBase64ToUint8Array; the order of padding and replacing does not matter to the result of the
-- same steps in qrXpubBytes.
unfoldable pub url_base64_to_u8 : Text → Option Bytes
unfolding atob from_url pad
url_base64_to_u8 s = atob (map from_url (pad s))
