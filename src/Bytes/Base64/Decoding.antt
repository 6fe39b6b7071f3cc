-- ===== src/Bytes/Base64/Decoding.antt =====
-- Reading back what the base64 encoders wrote.
use mathlib.Core.Option.{some-injective}
use mathlib.Core.Path.{subst}
use tele.Prelude.{
  ℕ, ◌+◌, ◌*◌, ◌/◌, ◌%◌, ◌<◌, ◌≡◌, refl, ap, ◌∙◌, false, some, [], ◌∷◌, map, arith, ◌==◌, length,
}
use tele.Bytes.{Text, Bytes, AreBytes}
use tele.Bytes.Base64.{
  >>=-eq-some, b64_char, b64_val, btoa, is_blank, skip_space, unpad, decode, atob, to_url, from_url,
  strip_fill, fill, pad, to_base64_url,
}

val-char : (n : ℕ) → n < 64 → b64_val (b64_char n) ≡ some n
unfolding b64_val b64_char
val-char n h = ground arith

char_not_fill : (n : ℕ) → n < 64 → (b64_char n == b'=') ≡ false
unfolding b64_char
char_not_fill n h = ground arith

char_not_blank : (n : ℕ) → n < 64 → is_blank (b64_char n) ≡ false
unfolding is_blank b64_char
char_not_blank n h = ground arith

from_url-to_url : (n : ℕ) → n < 64 → from_url (to_url (b64_char n)) ≡ b64_char n
unfolding to_url from_url b64_char
from_url-to_url n h = ground arith

to_url_not_fill : (n : ℕ) → n < 64 → (to_url (b64_char n) == b'=') ≡ false
unfolding to_url b64_char
to_url_not_fill n h = ground arith

skip_space-btoa : (xs : Bytes) → AreBytes xs → skip_space (btoa xs) ≡ btoa xs
unfolding skip_space btoa
skip_space-btoa [] h = refl
skip_space-btoa (a ∷ []) h = ground (arith, char_not_blank (a / 4), char_not_blank (a % 4 * 16))
skip_space-btoa (a ∷ b ∷ []) h = ground (
  arith,
  char_not_blank (a / 4),
  char_not_blank (a % 4 * 16 + b / 16),
  char_not_blank (b % 16 * 4),
)
skip_space-btoa (a ∷ b ∷ c ∷ rest) h = ground (
  arith,
  char_not_blank (a / 4),
  char_not_blank (a % 4 * 16 + b / 16),
  char_not_blank (b % 16 * 4 + c / 64),
  char_not_blank (c % 64),
  skip_space-btoa rest,
)

unpad_quad :
    (w x y z : ℕ) (s : Text)
    → (z == b'=') ≡ false
    → unpad (w ∷ x ∷ y ∷ z ∷ s) ≡ w ∷ x ∷ y ∷ z ∷ unpad s
unfolding unpad
unpad_quad w x y z [] h = rw h
unpad_quad w x y z (c ∷ s) h = refl

decode-btoa : (xs : Bytes) → AreBytes xs → decode (unpad (btoa xs)) ≡ some xs
unfolding decode btoa
decode-btoa [] h = unfold unpad in refl
decode-btoa (a ∷ []) h =
    unfold unpad in
    rw (val-char (a / 4) (omega (arith, h.0)), val-char (a % 4 * 16) (omega arith)) (ground arith)
decode-btoa (a ∷ b ∷ []) h =
    unfold unpad in
    rw
      (
        char_not_fill (b % 16 * 4) (omega arith),
        val-char (a / 4) (omega (arith, h.0)),
        val-char (a % 4 * 16 + b / 16) (omega (arith, h)),
        val-char (b % 16 * 4) (omega arith),
      )
      (ground arith)
decode-btoa (a ∷ b ∷ c ∷ rest) h =
    rw
      (
        unpad_quad (b64_char (a / 4)) (b64_char (a % 4 * 16 + b / 16))
            (b64_char (b % 16 * 4 + c / 64)) (b64_char (c % 64)) (btoa rest)
            (char_not_fill (c % 64) (omega arith)),
        val-char (a / 4) (omega (arith, h.0)),
        val-char (a % 4 * 16 + b / 16) (omega (arith, h)),
        val-char (b % 16 * 4 + c / 64) (omega (arith, h)),
        val-char (c % 64) (omega arith),
        decode-btoa rest h.1.1.1,
      )
      (ground arith)

-- `atob` undoes `btoa` on bytes.
pub atob-btoa : (xs : Bytes) → AreBytes xs → atob (btoa xs) ≡ some xs
unfolding atob
atob-btoa xs h = rw (skip_space-btoa xs h) (decode-btoa xs h)

strip_fill_cons : (c : ℕ) (s : Text) → (c == b'=') ≡ false → strip_fill (c ∷ s) ≡ c ∷ strip_fill s
unfolding strip_fill
strip_fill_cons c s h = ground arith

pad_quad : (a b c d : ℕ) (s : Text) → pad (a ∷ b ∷ c ∷ d ∷ s) ≡ a ∷ b ∷ c ∷ d ∷ pad s
unfolding pad
pad_quad a b c d s = let e : (length (a ∷ b ∷ c ∷ d ∷ s)) % 4 ≡ length s % 4 = omega arith in rw e

-- What a text is when it comes back from its unpadded base64url form.
abbrev restore : Text → Text
restore s = pad (map from_url (strip_fill (map to_url s)))

strip_char :
    (n : ℕ) (s : Text)
    → n < 64
    → strip_fill (to_url (b64_char n) ∷ s) ≡ to_url (b64_char n) ∷ strip_fill s
strip_char n s h = strip_fill_cons (to_url (b64_char n)) s (to_url_not_fill n h)

restore_one :
    (n : ℕ) (s : Text)
    → n < 64
    → map from_url (strip_fill (map to_url (b64_char n ∷ s)))
      ≡ b64_char n ∷ map from_url (strip_fill (map to_url s))
restore_one n s h = rw (strip_char n (map to_url s) h, from_url-to_url n h)

restore_quad :
    (w x y z : ℕ) (s : Text)
    → w < 64
    → x < 64
    → y < 64
    → z < 64
    → restore (b64_char w ∷ b64_char x ∷ b64_char y ∷ b64_char z ∷ s)
      ≡ b64_char w ∷ b64_char x ∷ b64_char y ∷ b64_char z ∷ restore s
restore_quad w x y z s hw hx hy hz =
    ap pad (
      restore_one w (b64_char x ∷ b64_char y ∷ b64_char z ∷ s) hw
      ∙ ap (λ t. b64_char w ∷ t)
          (restore_one x (b64_char y ∷ b64_char z ∷ s) hx
            ∙ ap (λ t. b64_char x ∷ t)
                (restore_one y (b64_char z ∷ s) hy
                  ∙ ap (λ t. b64_char y ∷ t) (restore_one z s hz))))
    ∙ pad_quad (b64_char w) (b64_char x) (b64_char y) (b64_char z) _

restore-btoa : (xs : Bytes) → AreBytes xs → restore (btoa xs) ≡ btoa xs
unfolding btoa
restore-btoa [] h = unfold pad strip_fill fill in refl
restore-btoa (a ∷ []) h =
    ap pad (
      restore_one (a / 4) (b64_char (a % 4 * 16) ∷ b'=' ∷ b'=' ∷ []) (omega (arith, h.0))
      ∙ ap (λ t. b64_char (a / 4) ∷ t) (restore_one (a % 4 * 16) (b'=' ∷ b'=' ∷ []) (omega arith)))
    ∙ unfold pad strip_fill fill to_url in refl
restore-btoa (a ∷ b ∷ []) h =
    ap pad (
      restore_one (a / 4) (b64_char (a % 4 * 16 + b / 16) ∷ b64_char (b % 16 * 4) ∷ b'=' ∷ [])
        (omega (arith, h.0))
      ∙ ap (λ t. b64_char (a / 4) ∷ t)
          (restore_one (a % 4 * 16 + b / 16) (b64_char (b % 16 * 4) ∷ b'=' ∷ []) (omega (arith, h))
            ∙ ap (λ t. b64_char (a % 4 * 16 + b / 16) ∷ t)
                (restore_one (b % 16 * 4) (b'=' ∷ []) (omega (arith, h)))))
    ∙ unfold pad strip_fill fill to_url in refl
restore-btoa (a ∷ b ∷ c ∷ rest) h =
    restore_quad (a / 4) (a % 4 * 16 + b / 16) (b % 16 * 4 + c / 64) (c % 64) (btoa rest)
      (omega (arith, h.0)) (omega (arith, h)) (omega (arith, h)) (omega arith)
    ∙ ap
        (λ t.
          b64_char (a / 4)
          ∷ b64_char (a % 4 * 16 + b / 16)
          ∷ b64_char (b % 16 * 4 + c / 64)
          ∷ b64_char (c % 64)
          ∷ t)
        (restore-btoa rest h.1.1.1)

-- An unpadded base64url text is padded and translated back to what `btoa` wrote.
pub pad-to_base64_url : (xs : Bytes) → AreBytes xs → pad (map from_url (to_base64_url xs)) ≡ btoa xs
unfolding to_base64_url
pad-to_base64_url xs h = restore-btoa xs h

val_bound : (c v : ℕ) → b64_val c ≡ some v → v < 64
unfolding b64_val
val_bound c v h = ground arith

-- The first two bytes of a group.
two_bytes :
    (v w x : ℕ) → v < 64 → w < 64 → x < 64 → (v * 4 + w / 16 < 256) × (w % 16 * 16 + x / 4 < 256)
two_bytes v w x hv hw hx = (omega arith, omega arith)

third_byte : (x y : ℕ) → x < 64 → y < 64 → x % 4 * 64 + y < 256
third_byte x y hx hy = omega arith

-- What is decoded is a byte string.
decode-AreBytes : (s : Text) (xs : Bytes) → decode s ≡ some xs → AreBytes xs
unfolding decode
decode-AreBytes [] xs h = ground arith
decode-AreBytes (a ∷ []) xs h = cc
decode-AreBytes (a ∷ b ∷ []) xs h = ground (arith, val_bound a, val_bound b)
decode-AreBytes (a ∷ b ∷ c ∷ []) xs h =
    let (v, hv, h1) = >>=-eq-some (b64_val a) _ h in
    let (w, hw, h2) = >>=-eq-some (b64_val b) _ h1 in
    let (x, hx, e) = >>=-eq-some (b64_val c) _ h2 in
    let (l0, l1) = two_bytes v w x (val_bound a v hv) (val_bound b w hw) (val_bound c x hx) in
    subst AreBytes (some-injective _ _ e) (l0, (l1, tt))
decode-AreBytes (a ∷ b ∷ c ∷ d ∷ s) xs h =
    let (v, hv, h1) = >>=-eq-some (b64_val a) _ h in
    let (w, hw, h2) = >>=-eq-some (b64_val b) _ h1 in
    let (x, hx, h3) = >>=-eq-some (b64_val c) _ h2 in
    let (y, hy, h4) = >>=-eq-some (b64_val d) _ h3 in
    let (rest, hr, e) = >>=-eq-some (decode s) _ h4 in
    let (l0, l1) = two_bytes v w x (val_bound a v hv) (val_bound b w hw) (val_bound c x hx) in
    let l2 = third_byte x y (val_bound c x hx) (val_bound d y hy) in
    subst AreBytes (some-injective _ _ e) (l0, (l1, (l2, decode-AreBytes s rest hr)))

pub atob-AreBytes : (s : Text) (xs : Bytes) → atob s ≡ some xs → AreBytes xs
unfolding atob
atob-AreBytes s xs h = decode-AreBytes (unpad (skip_space s)) xs h
