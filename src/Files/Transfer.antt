-- ===== src/Files/Transfer.antt =====
-- A whole transfer: the chunk loop of `web/app.js` against onFileChunk and onFileEnd.
use tele.Prelude.{
  ℕ, zero, suc, ◌+◌, ◌-◌, ◌*◌, ◌/◌, ◌≤◌, ◌<◌, ◌≡◌, refl, sym, ap, ◌∙◌, ◌⊎◌, Bool, true, false, some,
  List, [], ◌∷◌, ◌++◌, append-nil, append_assoc, arith, lt→ltb, length, take, length-append,
  length-take,
}
use tele.Bytes.{Bytes}
use tele.Files.{
  total_chunks, chunk_at, send_chunks, send_all, Bucket, set_at, on_chunk, on_chunks, got_bytes,
  has_hole, blob_of, reassemble,
}
use tele.Files.Chunks.{
  take_all, AreChunks, blob_of_chunks, length-blob_of, AreFrames, AreChunks-on_chunks,
}

reassemble-some :
    (want : ℕ) (parts : Bucket) (b : Bytes)
    → reassemble want parts ≡ some b
    → (has_hole parts ≡ false) × (b ≡ blob_of parts) × ((want ≡ 0) ⊎ (got_bytes parts ≡ want))
unfolding reassemble
reassemble-some want parts b h = ground arith

whole : (m : ℕ) (buf : Bytes) → length (take m buf) ≡ length buf → take m buf ≡ buf
whole m buf e = take_all m buf (omega (arith, length-take m buf))

fits_whole :
    (m : ℕ) (buf : Bytes) (got : ℕ)
    → got ≡ length (take m buf)
    → (length buf ≡ 0) ⊎ (got ≡ length buf)
    → length (take m buf) ≡ length buf
fits_whole m buf got e h = omega (arith, length-take m buf)

pub accepted_chunks :
    (size : ℕ) (buf b : Bytes) (parts : Bucket)
    → AreChunks size buf 0 parts
    → reassemble (length buf) parts ≡ some b
    → b ≡ buf
accepted_chunks size buf b parts a h =
    let (full, same, fits) = reassemble-some (length buf) parts b h in
    let joined = blob_of_chunks size 0 buf parts a full in
    let zero_at : 0 * size ≡ 0 = omega arith in
    let stretch = rw zero_at at joined in
    let bytes = length-blob_of parts in
    same
    ∙ stretch
    ∙ whole (length parts * size) buf (
        fits_whole (length parts * size) buf (got_bytes parts) (sym bytes ∙ ap length stretch) fits)

-- Whatever chunks of the file arrive, in whatever order and however often, a file that onFileEnd
-- accepts against the announced size has exactly the bytes that were sent.
pub accepted_is_sent :
    (size : ℕ) (buf b : Bytes) (frames : List (ℕ × Bytes))
    → AreFrames size buf frames
    → reassemble (length buf) (on_chunks frames []) ≡ some b
    → b ≡ buf
accepted_is_sent size buf b frames f h =
    accepted_chunks size buf b (on_chunks frames []) (AreChunks-on_chunks size buf frames [] f tt) h

-- The frames of a loop that is not interrupted, as the bucket that they fill.
chunks_from : ℕ → Bytes → ℕ → ℕ → Bucket
chunks_from size buf zero i = []
chunks_from size buf (suc left) i = some (chunk_at size buf i) ∷ chunks_from size buf left (i + 1)

set_at_end :
    (i : ℕ) (v : Bytes) (arr : Bucket) → length arr ≡ i → set_at i v arr ≡ arr ++ (some v ∷ [])
unfolding set_at
set_at_end zero v [] e = refl
set_at_end zero v (x ∷ arr) e = absurd (omega arith)
set_at_end (suc i) v [] e = absurd (omega arith)
set_at_end (suc i) v (x ∷ arr) e = ap (λ l. x ∷ l) (set_at_end i v arr (omega arith))

pub on_chunks_cons :
    (i : ℕ) (v : Bytes) (frames : List (ℕ × Bytes)) (arr : Bucket)
    → i < 4294967295
    → on_chunks ((i, v) ∷ frames) arr ≡ on_chunks frames (set_at i v arr)
unfolding on_chunks on_chunk
on_chunks_cons i v frames arr h = rw (lt→ltb i 4294967295 h)

on_chunks-send_chunks :
    (size : ℕ) (buf : Bytes) (sent : ℕ → Bool) (left i : ℕ) (arr : Bucket)
    → ((k : ℕ) → sent k ≡ true)
    → length arr ≡ i
    → i + left ≤ 4294967295
    → on_chunks (send_chunks size buf sent left i).0 arr ≡ arr ++ chunks_from size buf left i
unfolding send_chunks chunks_from
on_chunks-send_chunks size buf sent zero i arr ok e h = unfold on_chunks in sym (append-nil arr)
on_chunks-send_chunks size buf sent (suc left) i arr ok e h =
    let v = some (chunk_at size buf i) in
    let frames = (send_chunks size buf sent left (i + 1)).0 in
    rw (ok i) (
      on_chunks_cons i (chunk_at size buf i) frames arr (omega arith)
      ∙ rw (set_at_end i (chunk_at size buf i) arr e) (
          on_chunks-send_chunks size buf sent left (i + 1) (arr ++ (v ∷ [])) ok
            (omega (arith, length-append arr (v ∷ []), e)) (omega arith)
          ∙ append_assoc arr (v ∷ []) (chunks_from size buf left (i + 1))))

AreChunks-chunks_from :
    (size : ℕ) (buf : Bytes) (left i : ℕ) → AreChunks size buf i (chunks_from size buf left i)
unfolding chunks_from
AreChunks-chunks_from size buf zero i = tt
AreChunks-chunks_from size buf (suc left) i = (refl, AreChunks-chunks_from size buf left (i + 1))

chunks_from_full :
    (size : ℕ) (buf : Bytes) (left i : ℕ) → has_hole (chunks_from size buf left i) ≡ false
unfolding chunks_from has_hole
chunks_from_full size buf zero i = refl
chunks_from_full size buf (suc left) i = chunks_from_full size buf left (i + 1)

length-chunks_from :
    (size : ℕ) (buf : Bytes) (left i : ℕ) → length (chunks_from size buf left i) ≡ left
unfolding chunks_from
length-chunks_from size buf zero i = refl
length-chunks_from size buf (suc left) i = ap suc (length-chunks_from size buf left (i + 1))

covers : (size m : ℕ) → 0 < size → m < (m / size) * size + size
covers size m h = omega arith

pub total_covers :
    (size len : ℕ) → 0 < size → (len ≤ total_chunks size len * size) × (0 < total_chunks size len)
unfolding total_chunks
total_covers size len h = ground (arith, covers size (len + (size - 1)) h)

pub reassemble_full :
    (want : ℕ) (parts : Bucket)
    → 0 < length parts
    → has_hole parts ≡ false
    → got_bytes parts ≡ want
    → reassemble want parts ≡ some (blob_of parts)
unfolding reassemble
reassemble_full want [] p h g = absurd (omega arith)
reassemble_full want (x ∷ parts) p h g = ground arith

blob_of_all :
    (size : ℕ) (buf : Bytes) (n : ℕ)
    → length buf ≤ n * size
    → blob_of (chunks_from size buf n 0) ≡ buf
blob_of_all size buf n h =
    let parts = chunks_from size buf n 0 in
    let zero_at : 0 * size ≡ 0 = omega arith in
    let stretch =
      rw (zero_at, length-chunks_from size buf n 0) at
        (blob_of_chunks size 0 buf parts (AreChunks-chunks_from size buf n 0)
          (chunks_from_full size buf n 0)) in
    stretch ∙ take_all (n * size) buf h

-- If every chunk frame of the loop is sent, and they arrive in order, onFileEnd accepts the file
-- and has its bytes, for any buffer of at most 2^32 - 1 chunks.
pub sent_is_accepted :
    (size : ℕ) (buf : Bytes) (sent : ℕ → Bool)
    → 0 < size
    → total_chunks size (length buf) ≤ 4294967295
    → ((k : ℕ) → sent k ≡ true)
    → reassemble (length buf) (on_chunks (send_all size buf sent).0 []) ≡ some buf
unfolding send_all
sent_is_accepted size buf sent h t ok =
    let n = total_chunks size (length buf) in
    let parts = chunks_from size buf n 0 in
    let covered = total_covers size (length buf) h in
    let blob = blob_of_all size buf n covered.0 in
    rw (on_chunks-send_chunks size buf sent n 0 [] ok refl (omega arith)) (
      reassemble_full (length buf) parts (omega (arith, length-chunks_from size buf n 0, covered.1))
        (chunks_from_full size buf n 0) (sym (length-blob_of parts) ∙ ap length blob)
      ∙ ap some blob)
