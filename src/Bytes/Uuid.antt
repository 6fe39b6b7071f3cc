-- ===== src/Bytes/Uuid.antt =====
-- uuidToBytes against uuidFromBytes.
use native.Mathlib.Nat.{zero-add, suc-add}
use tele.Prelude.{
  ℕ, zero, suc, ◌+◌, ◌/◌, ◌%◌, ◌<◌, ◌≡◌, refl, ap, false, List, [], ◌∷◌, ◌++◌, append-nil, arith,
  ◌==◌, length, take, drop, take-append-drop, take-append, slice, All,
}
use tele.Bytes.{
  Text, Bytes, AreBytes, hex_digit, hex_of, strip_dashes, uuid_to_bytes, dashed, uuid_from_bytes,
}
use tele.Bytes.Hex.{bytes_of_hex-hex_of_at}

digit_no_dash : (n : ℕ) → n < 16 → (hex_digit n == b'-') ≡ false
unfolding hex_digit
digit_no_dash n h = ground arith

abbrev NoDash : Text → Type 0
NoDash = All (λ c. (c == b'-') ≡ false)

hex_of-NoDash : (bs : Bytes) → AreBytes bs → NoDash (hex_of bs)
unfolding hex_of
hex_of-NoDash [] h = tt
hex_of-NoDash (b ∷ bs) h =
    let rest = hex_of-NoDash bs h.1 in
    (digit_no_dash (b / 16) (omega (arith, h.0)), (digit_no_dash (b % 16) (omega arith), rest))

strip_dashes-append : (xs ys : Text) → strip_dashes (xs ++ ys) ≡ strip_dashes xs ++ strip_dashes ys
unfolding strip_dashes
strip_dashes-append [] ys = refl
strip_dashes-append (x ∷ xs) ys = ground (arith, strip_dashes-append xs ys)

strip_dashes-dash : (xs ys : Text) → strip_dashes (xs ++ (b'-' ∷ ys)) ≡ strip_dashes (xs ++ ys)
unfolding strip_dashes
strip_dashes-dash [] ys = refl
strip_dashes-dash (x ∷ xs) ys = ground (arith, strip_dashes-dash xs ys)

strip_dashes_id : (xs : Text) → NoDash xs → strip_dashes xs ≡ xs
unfolding strip_dashes
strip_dashes_id [] h = refl
strip_dashes_id (x ∷ xs) h = rw h.0 (ap (λ l. x ∷ l) (strip_dashes_id xs h.1))

joined : Text → Text
joined s = slice 0 8 s ++ (slice 8 12 s ++ (slice 12 16 s ++ (slice 16 20 s ++ drop 20 s)))

drop-nil : (n : ℕ) → drop {A = ℕ} n [] ≡ []
drop-nil zero = refl
drop-nil (suc n) = refl

drop-drop : (n a : ℕ) (s : Text) → drop n (drop a s) ≡ drop (a + n) s
drop-drop n zero s = rw zero-add
drop-drop n (suc a) [] = rw (drop-nil n, drop-nil (suc a + n))
drop-drop n (suc a) (x ∷ s) = rw suc-add (drop-drop n a s)

rejoin : (a n : ℕ) (s : Text) → take n (drop a s) ++ drop (a + n) s ≡ drop a s
rejoin a n s = rw (← drop-drop n a s) (take-append-drop n (drop a s))

joined_id : (s : Text) → joined s ≡ s
unfolding joined
joined_id s = rw (rejoin 16 4 s, rejoin 12 4 s, rejoin 8 4 s) (take-append-drop 8 s)

strip_dashes-dashed : (s : Text) → strip_dashes (dashed s) ≡ strip_dashes (joined s)
unfolding joined dashed
strip_dashes-dashed s = simp (strip_dashes-dash, strip_dashes-append)

take_all {ℓ} : {A : Type ℓ} (n : ℕ) (xs : List A) → length xs ≡ n → take n xs ≡ xs
take_all n xs h = rw append-nil at (take-append n xs [] h)

-- The sixteen bytes of an id come back from its text.
pub uuid_to_bytes-uuid_from_bytes :
    (u8 : Bytes) → AreBytes u8 → length u8 ≡ 16 → uuid_to_bytes (uuid_from_bytes u8) ≡ u8
unfolding uuid_to_bytes uuid_from_bytes
uuid_to_bytes-uuid_from_bytes u8 h n =
    rw (take_all 16 u8 n, strip_dashes-dashed (hex_of u8), joined_id (hex_of u8))
      (rw (strip_dashes_id (hex_of u8) (hex_of-NoDash u8 h)) (bytes_of_hex-hex_of_at 16 u8 n h))
