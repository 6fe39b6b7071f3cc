-- ===== src/Files/Chunks.antt =====
-- The chunks of a buffer: cutting and joining.
use native.Mathlib.Nat.{zero-add, suc-add}
use tele.Prelude.{
  ℕ, zero, suc, ◌+◌, ◌*◌, ◌≤◌, ◌≡◌, refl, ap, inl, inr, false, none, some, List, [], ◌∷◌, ◌++◌,
  arith, ltb, Bool-cases, length, take, drop, length-append,
}
use tele.Bytes.{Bytes}
use tele.Files.{chunk_at, Bucket, set_at, on_chunk, on_chunks, got_bytes, has_hole, blob_of}

drop-nil : (n : ℕ) → drop {A = ℕ} n [] ≡ []
drop-nil zero = refl
drop-nil (suc n) = refl

pub drop-drop : (n a : ℕ) (s : Bytes) → drop n (drop a s) ≡ drop (a + n) s
drop-drop n zero s = rw zero-add
drop-drop n (suc a) [] = rw (drop-nil n, drop-nil (suc a + n))
drop-drop n (suc a) (x ∷ s) = rw suc-add (drop-drop n a s)

pub take_all : (n : ℕ) (s : Bytes) → length s ≤ n → take n s ≡ s
take_all zero [] h = refl
take_all zero (x ∷ s) h = absurd (omega arith)
take_all (suc n) [] h = refl
take_all (suc n) (x ∷ s) h = ap (λ l. x ∷ l) (take_all n s (omega arith))

-- The parts hold no hole and are the chunks i, i + 1, … of the buffer.
abbrev pub AreChunks : ℕ → Bytes → ℕ → Bucket → Type 0
AreChunks size buf i [] = Unit {0}
AreChunks size buf i (none ∷ parts) = AreChunks size buf (i + 1) parts
AreChunks size buf i (some c ∷ parts) = (c ≡ chunk_at size buf i) × AreChunks size buf (i + 1) parts

take-nil : (n : ℕ) → take {A = ℕ} n [] ≡ []
take-nil zero = refl
take-nil (suc n) = refl

take-append_drop : (m n : ℕ) (s : Bytes) → take m s ++ take n (drop m s) ≡ take (m + n) s
take-append_drop zero n s = rw zero-add
take-append_drop (suc m) n [] = rw (take-nil n, take-nil (suc m + n))
take-append_drop (suc m) n (x ∷ s) = rw suc-add (ap (λ l. x ∷ l) (take-append_drop m n s))

-- Joined, they are a stretch of the buffer.
pub blob_of_chunks :
    (size i : ℕ) (buf : Bytes) (parts : Bucket)
    → AreChunks size buf i parts
    → has_hole parts ≡ false
    → blob_of parts ≡ take (length parts * size) (drop (i * size) buf)
unfolding blob_of has_hole chunk_at
blob_of_chunks size i buf [] a h = let e : 0 * size ≡ 0 = omega arith in rw e
blob_of_chunks size i buf (none ∷ parts) a h = cc
blob_of_chunks size i buf (some c ∷ parts) a h =
    let next : (i + 1) * size ≡ i * size + size = omega arith in
    let more : suc (length parts) * size ≡ size + length parts * size = omega arith in
    rw
      (
        a.0,
        blob_of_chunks size (i + 1) buf parts a.1 h,
        next,
        ← drop-drop size (i * size) buf,
        more,
      )
      (take-append_drop size (length parts * size) (drop (i * size) buf))

pub length-blob_of : (parts : Bucket) → length (blob_of parts) ≡ got_bytes parts
unfolding blob_of got_bytes
length-blob_of [] = refl
length-blob_of (none ∷ parts) = length-blob_of parts
length-blob_of (some c ∷ parts) =
    omega (arith, length-append c (blob_of parts), length-blob_of parts)

pub AreChunks-set_at :
    (size : ℕ) (buf : Bytes) (i j k : ℕ) (arr : Bucket)
    → j ≡ i + k
    → AreChunks size buf i arr
    → AreChunks size buf i (set_at k (chunk_at size buf j) arr)
unfolding set_at
AreChunks-set_at size buf i j zero [] e a = (ap (chunk_at size buf) (omega arith), tt)
AreChunks-set_at size buf i j zero (none ∷ arr) e a = (ap (chunk_at size buf) (omega arith), a)
AreChunks-set_at size buf i j zero (some c ∷ arr) e a = (ap (chunk_at size buf) (omega arith), a.1)
AreChunks-set_at size buf i j (suc k) [] e a =
    AreChunks-set_at size buf (i + 1) j k [] (omega arith) tt
AreChunks-set_at size buf i j (suc k) (none ∷ arr) e a =
    AreChunks-set_at size buf (i + 1) j k arr (omega arith) a
AreChunks-set_at size buf i j (suc k) (some c ∷ arr) e a =
    (a.0, AreChunks-set_at size buf (i + 1) j k arr (omega arith) a.1)

-- The frames carry chunks of the buffer under their numbers.
abbrev pub AreFrames : ℕ → Bytes → List (ℕ × Bytes) → Type 0
AreFrames size buf [] = Unit {0}
AreFrames size buf ((i, v) ∷ frames) = (v ≡ chunk_at size buf i) × AreFrames size buf frames

pub AreChunks-on_chunks :
    (size : ℕ) (buf : Bytes) (frames : List (ℕ × Bytes)) (arr : Bucket)
    → AreFrames size buf frames
    → AreChunks size buf 0 arr
    → AreChunks size buf 0 (on_chunks frames arr)
unfolding on_chunks on_chunk
AreChunks-on_chunks size buf [] arr f a = a
AreChunks-on_chunks size buf ((i, v) ∷ frames) arr f a = elim (Bool-cases (ltb i 4294967295)) [
  | inl e ↦
      rw (e, f.0)
        (AreChunks-on_chunks size buf frames (set_at i (chunk_at size buf i) arr) f.1
          (AreChunks-set_at size buf 0 i i arr (omega arith) a))
  | inr e ↦ rw e (AreChunks-on_chunks size buf frames arr f.1 a)
]
