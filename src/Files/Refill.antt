-- ===== src/Files/Refill.antt =====
-- The chunk loop of `web/app.js` over a bucket that an interrupted transfer has left.
use tele.Prelude.{
  ℕ, zero, suc, ◌+◌, ◌-◌, ◌*◌, ◌≤◌, ◌<◌, ◌≡◌, refl, sym, ap, ◌∙◌, inl, inr, Bool, true, false, none,
  some, List, [], ◌∷◌, arith, ◌==◌, Bool-cases, length,
}
use tele.Bytes.{Bytes}
use tele.Files.{
  total_chunks, chunk_at, send_chunks, Bucket, set_at, on_chunks, has_hole, reassemble,
}
use tele.Files.Chunks.{
  take_all, AreChunks, blob_of_chunks, length-blob_of, AreFrames, AreChunks-on_chunks,
}
use tele.Files.Transfer.{on_chunks_cons, total_covers, reassemble_full}

is_filled : ℕ → Bucket → Bool
is_filled k [] = false
is_filled zero (none ∷ arr) = false
is_filled zero (some c ∷ arr) = true
is_filled (suc k) (x ∷ arr) = is_filled k arr

is_filled-set_at :
    (k i : ℕ) (v : Bytes) (arr : Bucket)
    → is_filled k arr ≡ true
    → is_filled k (set_at i v arr) ≡ true
unfolding is_filled set_at
is_filled-set_at k i v [] h = absurd (cc h)
is_filled-set_at zero zero v (none ∷ arr) h = refl
is_filled-set_at zero zero v (some c ∷ arr) h = refl
is_filled-set_at zero (suc i) v (none ∷ arr) h = h
is_filled-set_at zero (suc i) v (some c ∷ arr) h = refl
is_filled-set_at (suc k) zero v (x ∷ arr) h = h
is_filled-set_at (suc k) (suc i) v (x ∷ arr) h = is_filled-set_at k i v arr h

is_filled-set_at_self : (i : ℕ) (v : Bytes) (arr : Bucket) → is_filled i (set_at i v arr) ≡ true
unfolding is_filled set_at
is_filled-set_at_self zero v [] = refl
is_filled-set_at_self zero v (x ∷ arr) = refl
is_filled-set_at_self (suc i) v [] = is_filled-set_at_self i v []
is_filled-set_at_self (suc i) v (x ∷ arr) = is_filled-set_at_self i v arr

length-is_filled : (k : ℕ) (arr : Bucket) → is_filled k arr ≡ true → k < length arr
unfolding is_filled
length-is_filled k [] h = absurd (cc h)
length-is_filled zero (x ∷ arr) h = omega arith
length-is_filled (suc k) (x ∷ arr) h = omega (arith, length-is_filled k arr h)

no_hole :
    (arr : Bucket) → ((k : ℕ) → k < length arr → is_filled k arr ≡ true) → has_hole arr ≡ false
unfolding has_hole is_filled
no_hole [] h = refl
no_hole (none ∷ arr) h = absurd (cc (h 0 (omega arith)))
no_hole (some c ∷ arr) h = no_hole arr (λ k l. h (suc k) (omega arith))

-- An index past the end makes the array no longer than it asks for.
pub length-set_at :
    (i : ℕ) (v : Bytes) (arr : Bucket) (n : ℕ)
    → i < n
    → length arr ≤ n
    → length (set_at i v arr) ≤ n
unfolding set_at
length-set_at zero v [] n h k = omega arith
length-set_at zero v (x ∷ arr) n h k = k
length-set_at (suc i) v [] zero h k = absurd (omega arith)
length-set_at (suc i) v [] (suc n) h k =
    omega (arith, length-set_at i v [] n (omega arith) (omega arith))
length-set_at (suc i) v (x ∷ arr) zero h k = absurd (omega arith)
length-set_at (suc i) v (x ∷ arr) (suc n) h k =
    omega (arith, length-set_at i v arr n (omega arith) (omega arith))

module _ (size : ℕ) (buf : Bytes) where
  -- The frames of a loop that is not interrupted.
  abbrev pub loop : ℕ → ℕ → List (ℕ × Bytes)
  loop left i = (send_chunks size buf (λ k. true) left i).0

  pub AreFrames-loop : (left i : ℕ) → AreFrames size buf (loop left i)
  unfolding send_chunks
  AreFrames-loop zero i = tt
  AreFrames-loop (suc left) i = (refl, AreFrames-loop left (i + 1))

  loop_keeps :
      (k left i : ℕ) (arr : Bucket)
      → i + left ≤ 4294967295
      → is_filled k arr ≡ true
      → is_filled k (on_chunks (loop left i) arr) ≡ true
  unfolding send_chunks
  loop_keeps k zero i arr n h = unfold on_chunks in h
  loop_keeps k (suc left) i arr n h =
      rw (on_chunks_cons i (chunk_at size buf i) (loop left (i + 1)) arr (omega arith))
        (loop_keeps k left (i + 1) _ (omega arith) (is_filled-set_at k i _ arr h))

  loop_fills :
      (k left i : ℕ) (arr : Bucket)
      → i + left ≤ 4294967295
      → i ≤ k
      → k < i + left
      → is_filled k (on_chunks (loop left i) arr) ≡ true
  unfolding send_chunks
  loop_fills k zero i arr n a b = absurd (omega arith)
  loop_fills k (suc left) i arr n a b =
      rw (on_chunks_cons i (chunk_at size buf i) (loop left (i + 1)) arr (omega arith))
        (elim (Bool-cases (k == i)) [
          | inl e ↦
              let same : k ≡ i = ground (arith, e) in
              rw same (loop_keeps i left (i + 1) _ (omega arith) (is_filled-set_at_self i _ arr))
          | inr e ↦ loop_fills k left (i + 1) _ (omega arith) (ground (arith, a, e)) (omega arith)
        ])

  length-loop :
      (n left i : ℕ) (arr : Bucket)
      → i + left ≤ 4294967295
      → i + left ≤ n
      → length arr ≤ n
      → length (on_chunks (loop left i) arr) ≤ n
  unfolding send_chunks
  length-loop n zero i arr s a b = unfold on_chunks in b
  length-loop n (suc left) i arr s a b =
      rw (on_chunks_cons i (chunk_at size buf i) (loop left (i + 1)) arr (omega arith)) (
        length-loop n left (i + 1) _ (omega arith) (omega arith)
          (length-set_at i _ arr n (omega arith) b))

  -- Whatever chunks of the file the bucket had, after a whole loop the file is accepted, as it is.
  pub refilled :
      (arr : Bucket)
      → 0 < size
      → total_chunks size (length buf) ≤ 4294967295
      → AreChunks size buf 0 arr
      → length arr ≤ total_chunks size (length buf)
      → reassemble (length buf) (on_chunks (loop (total_chunks size (length buf)) 0) arr) ≡ some buf
  refilled arr h t a short =
      let n = total_chunks size (length buf) in
      let parts = on_chunks (loop n 0) arr in
      let (covered, some_chunk) = total_covers size (length buf) h in
      let bound = length-loop n n 0 arr (omega arith) (omega arith) short in
      let full =
        no_hole parts
          (λ k l. loop_fills k n 0 arr (omega arith) (omega arith) (omega (arith, bound))) in
      let last =
        length-is_filled (n - 1) parts
          (loop_fills (n - 1) n 0 arr (omega arith) (omega arith) (omega arith)) in
      let chunks = AreChunks-on_chunks size buf (loop n 0) arr (AreFrames-loop n 0) a in
      let count : length parts ≡ n = omega arith in
      let zero_at : 0 * size ≡ 0 = omega arith in
      let blob =
        rw (zero_at, count) at (blob_of_chunks size 0 buf parts chunks full)
        ∙ take_all (n * size) buf covered in
      reassemble_full (length buf) parts (omega arith) full
        (sym (length-blob_of parts) ∙ ap length blob)
      ∙ ap some blob
