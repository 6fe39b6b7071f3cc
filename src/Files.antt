-- ===== src/Files.antt =====
-- File transfer in chunks: the loops of sendFile and replayFileSend, and the handlers onFileChunk
-- and onFileEnd of `web/app.js` as far as they put the chunks together.
pub mod Names
pub mod Chunks
pub mod Transfer
pub mod Refill
pub mod Inbound
pub mod Outgoing
pub mod Tests
use tele.Prelude.{
  ℕ, zero, suc, ◌+◌, ◌-◌, ◌*◌, ◌/◌, Bool, true, false, not, ◌&&◌, ◌||◌, Option, none, some, List,
  [], ◌∷◌, ◌++◌, ltb, ◌==◌, if◌then◌else◌, length, take, drop,
}
use tele.Bytes.{Bytes}

-- CHUNK_BYTES
abbrev pub chunk_bytes : ℕ
chunk_bytes = 32768

-- `Math.ceil(len / size) || 1`
unfoldable pub total_chunks : ℕ → ℕ → ℕ
total_chunks size len = let n = (len + (size - 1)) / size in if n == 0 then 1 else n

-- `buf.subarray(i * size, (i + 1) * size)`
unfoldable pub chunk_at : ℕ → Bytes → ℕ → Bytes
chunk_at size buf i = take size (drop (i * size) buf)

-- The FILE_CHUNK frames from index i on, `left` of them, with what `sendFileChunk` answers to each
-- of them. The first that is not sent ends the loop, and the result says whether all went out.
unfoldable pub send_chunks : ℕ → Bytes → (ℕ → Bool) → ℕ → ℕ → List (ℕ × Bytes) × Bool
send_chunks size buf sent zero i = ([], true)
send_chunks size buf sent (suc left) i =
    let (frames, all) = send_chunks size buf sent left (i + 1) in
    if sent i then ((i, chunk_at size buf i) ∷ frames, all) else ([], false)

-- The loop of sendFile and of replayFileSend, from the first chunk.
unfoldable pub send_all : ℕ → Bytes → (ℕ → Bool) → List (ℕ × Bytes) × Bool
unfolding send_chunks total_chunks
send_all size buf sent = send_chunks size buf sent (total_chunks size (length buf)) 0

-- An array with holes, which `Array.from` reads as undefined.
abbrev pub Bucket : Type 0
Bucket = List (Option Bytes)

unfoldable pub set_at : ℕ → Bytes → Bucket → Bucket
set_at zero v [] = some v ∷ []
set_at zero v (x ∷ arr) = some v ∷ arr
set_at (suc i) v [] = none ∷ set_at i v []
set_at (suc i) v (x ∷ arr) = x ∷ set_at i v arr

-- `arr[idx] = data`; 2^32 - 1 is no index of an array, and names a property that nothing reads.
unfoldable pub on_chunk : ℕ → Bytes → Bucket → Bucket
unfolding set_at
on_chunk idx v arr = if ltb idx 4294967295 then set_at idx v arr else arr

-- The bucket after a list of FILE_CHUNK frames.
unfoldable pub on_chunks : List (ℕ × Bytes) → Bucket → Bucket
unfolding on_chunk
on_chunks [] arr = arr
on_chunks ((i, v) ∷ frames) arr = on_chunks frames (on_chunk i v arr)

-- `parts.reduce((n, c) => n + (c ? c.byteLength : 0), 0)`
unfoldable pub got_bytes : Bucket → ℕ
got_bytes [] = 0
got_bytes (none ∷ parts) = got_bytes parts
got_bytes (some c ∷ parts) = length c + got_bytes parts

-- `parts.some((c) => !c)`
unfoldable pub has_hole : Bucket → Bool
has_hole [] = false
has_hole (none ∷ parts) = true
has_hole (some c ∷ parts) = has_hole parts

-- `new Blob(parts)`
unfoldable pub blob_of : Bucket → Bytes
blob_of [] = []
blob_of (none ∷ parts) = blob_of parts
blob_of (some c ∷ parts) = c ++ blob_of parts

abbrev is_empty : Bucket → Bool
is_empty [] = true
is_empty (x ∷ parts) = false

-- The check of onFileEnd: `some blob` if the file is accepted. `want` is `Number(meta.size) || 0`.
unfoldable pub reassemble : ℕ → Bucket → Option Bytes
unfolding got_bytes has_hole blob_of
reassemble want parts =
    if is_empty parts || has_hole parts || not (want == 0) && not (got_bytes parts == want)
    then none
    else some (blob_of parts)
