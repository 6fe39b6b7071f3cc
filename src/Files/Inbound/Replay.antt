-- ===== src/Files/Inbound/Replay.antt =====
-- A file that replayFileSend of `web/app.js` sends again, on the page of the receiver.
use tele.Files.Chunks.{AreChunks}
use tele.Inbox.{delivery_ack_out, Page}
use tele.Files.Inbound.Stored.{file_bytes, on_frames-Inv, accepted_there}
use tele.Table.{lookup, lookup-put_self}
use tele.Book.{is_banned}
use tele.Files.{
  chunk_bytes, total_chunks, send_chunks, send_all, Bucket, on_chunk, on_chunks, reassemble,
}
use tele.Files.Refill.{loop, refilled}
use tele.Files.Inbound.Honest.{is_there, chunk_count, AreSent, IsBucket, Inv, on_file_offer-Inv}
use tele.Prelude.{
  ℕ, zero, suc, ◌+◌, ◌≤◌, ◌≡◌, refl, ap, ◌∙◌, inl, inr, true, false, none, some, List, [], ◌∷◌,
  ◌++◌, arith, if◌then◌else◌, Option-cases, ◌===◌, length,
}
use tele.Bytes.{Text, Bytes}
use tele.Bytes.Base64.{btoa}
use tele.Storage.{FileRow, Store, is_file_ref, file_id_of, save_incoming, save_file_blob, get_file}
use tele.Inbox.Delivery.{In}
use tele.Inbox.Delivery.Retry.{acknowledged}
use tele.Inbox.Blocked.{Wired, offer, chunk, end, text, chunks_of, replay_blob, replay_file_send}
use tele.Files.Inbound.{
  Offer, Frame, file_offer, file_chunk, file_end, message, Inbound, row_of, bucket_of,
  on_file_offer, on_file_chunk, meta_of, accept_file, on_file_end, on_frame, on_frames,
}

-- The metadata that replayFileSend offers.
unfoldable pub offer_of : FileRow → Offer
unfolding btoa
offer_of row = record {
  mime = row.mime;
  name = row.name;
  size = row.size;
  thumb_b64 = elim row.thumb_blob [ none ↦ none | some b ↦ some (btoa b) ];
}

abbrev frame_of : Offer → Wired → Frame
frame_of o (offer id) = file_offer id o
frame_of o (chunk id i v) = file_chunk id i v
frame_of o (end id msg_id) = file_end id msg_id
frame_of o (text msg_id t) = message msg_id t

-- What a peer has sent at some time, as it arrives.
abbrev pub arriving : Text → ℕ → Offer → List Wired → List (Text × ℕ × Frame)
arriving peer_id now o [] = []
arriving peer_id now o (x ∷ xs) = (peer_id, now, frame_of o x) ∷ arriving peer_id now o xs

on_frames-append :
    (xs ys : List (Text × ℕ × Frame)) (f : Inbound)
    → on_frames (xs ++ ys) f ≡ on_frames ys (on_frames xs f)
unfolding on_frames
on_frames-append [] ys f = refl
on_frames-append ((p, now, x) ∷ xs) ys f = on_frames-append xs ys (on_frame p now x f)

arriving-append :
    (p : Text) (now : ℕ) (o : Offer) (xs ys : List Wired)
    → arriving p now o (xs ++ ys) ≡ arriving p now o xs ++ arriving p now o ys
arriving-append p now o [] ys = refl
arriving-append p now o (x ∷ xs) ys =
    ap (λ l. (p, now, frame_of o x) ∷ l) (arriving-append p now o xs ys)

chunks_run :
    (p id : Text) (now : ℕ) (o : Offer) (frames : List (ℕ × Bytes)) (f : Inbound) (arr : Bucket)
    → lookup id f.chunks ≡ some arr
    → let g = on_frames (arriving p now o (chunks_of id frames)) f in
      (lookup id g.chunks ≡ some (on_chunks frames arr)) × (g.metas ≡ f.metas) × (g.page ≡ f.page)
unfolding on_frames on_frame on_chunks
chunks_run p id now o [] f arr h = (h, refl, refl)
chunks_run p id now o ((i, v) ∷ frames) f arr h =
    chunks_run p id now o frames (on_file_chunk id i v f) (on_chunk i v arr) (
      unfold on_file_chunk in
      lookup-put_self id (on_chunk i v (bucket_of (lookup id f.chunks))) f.chunks
      ∙ ap (λ b. some (on_chunk i v (bucket_of b))) h)

all_sent :
    (size : ℕ) (buf : Bytes) (left i : ℕ) → (send_chunks size buf (λ k. true) left i).1 ≡ true
unfolding send_chunks
all_sent size buf zero i = refl
all_sent size buf (suc left) i = all_sent size buf left (i + 1)

replay_lem :
    (msg_id id : Text) (row : FileRow) (blob : Bytes) (s : Store)
    → lookup id s.files ≡ some row
    → row.blob ≡ some blob
    → (id === []) ≡ false
    → replay_file_send true (λ k. true) true msg_id (b'%' ∷ id) s ≡ (
      offer id
          ∷ (chunks_of id (loop chunk_bytes blob (total_chunks chunk_bytes (length blob)) 0)
              ++ (end id msg_id ∷ [])),
      true,
    )
unfolding replay_file_send replay_blob send_all get_file file_id_of is_file_ref
replay_lem msg_id id row blob s e b n =
    rw (n, replay_file_send, e, b)
      (rw (all_sent chunk_bytes blob (total_chunks chunk_bytes (length blob)) 0) refl)

module _ (content : Text → Bytes) where
  offered :
      (peer_id id : Text) (o : Offer) (f : Inbound)
      → is_banned peer_id f.page.blacklist ≡ false
      → Inv content f
      → o.size ≡ length (content id)
      → let g = on_file_offer peer_id id o f in
        Inv content g
        × (lookup id g.metas ≡ some (row_of o))
        × ((arr : Bucket) × (lookup id g.chunks ≡ some arr))
  offered peer_id id o f b h e = (
    on_file_offer-Inv content peer_id id o f e h,
    unfold on_file_offer in rw b (lookup-put_self id (row_of o) f.metas),
    elim (Option-cases (lookup id f.chunks)) [
      | inl n ↦
          ([], unfold on_file_offer in rw (b, n) (lookup-put_self {V = Bucket} id [] f.chunks))
      | inr (arr, n) ↦ (arr, unfold on_file_offer in rw (b, n) n)
    ],
  )

  in_bucket :
      (id : Text) (arr : Bucket)
      → IsBucket content id (some arr)
      → AreChunks chunk_bytes (content id) 0 arr × (length arr ≤ chunk_count content id)
  in_bucket id arr h = h

  accepts :
      (peer_id id msg_id : Text) (now : ℕ) (m : FileRow) (arr : Bucket) (f : Inbound)
      → lookup id f.chunks ≡ some arr
      → lookup id f.metas ≡ some m
      → reassemble m.size arr ≡ some (content id)
      → on_file_end peer_id id msg_id now f ≡ accept_file peer_id id msg_id (content id) now f
  unfolding on_file_end meta_of
  accepts peer_id id msg_id now m arr f e n r = rw (e, on_file_end, n, r) refl

  acknowledges :
      (peer_id id msg_id : Text) (blob : Bytes) (now : ℕ) (f : Inbound)
      → In (delivery_ack_out peer_id msg_id) (accept_file peer_id id msg_id blob now f).page.outs
  unfolding accept_file
  acknowledges peer_id id msg_id blob now f =
      let saved =
        save_incoming peer_id msg_id (b'%' ∷ id) now now (save_file_blob id blob f.page.store) in
      acknowledged peer_id msg_id (if f.page.persists then saved.0 else true)
        (record f.page { store = if f.page.persists then saved.1 else f.page.store })

  ended :
      (peer_id id msg_id : Text) (now : ℕ) (m : FileRow) (arr : Bucket) (f : Inbound)
      → f.page.persists ≡ true
      → is_there (lookup id f.page.store.files) ≡ true
      → lookup id f.chunks ≡ some arr
      → lookup id f.metas ≡ some m
      → reassemble m.size arr ≡ some (content id)
      → let g = on_file_end peer_id id msg_id now f in
        (file_bytes id g ≡ some (content id))
        × (is_there (lookup msg_id g.page.store.messages) ≡ true)
        × In (delivery_ack_out peer_id msg_id) g.page.outs
  ended peer_id id msg_id now m arr f p there e n r =
      let (bytes, saved) = accepted_there content peer_id id msg_id now f p there in
      rw (accepts peer_id id msg_id now m arr f e n r)
        (bytes, saved, acknowledges peer_id id msg_id (content id) now f)

  -- A file of at most 2^32 - 1 chunks that the sender has stored, and that is sent again from its
  -- first chunk to its end with nothing lost, arrives: whatever of it, of other files and of texts had
  -- come before from peers who send files as they are, the receiver, who has not banned the sender, has
  -- stored its bytes and the message, and has acknowledged it.
  pub replay_arrives :
      (earlier : List (Text × ℕ × Frame)) (f : Inbound) (peer_id id msg_id : Text) (now : ℕ)
      (row : FileRow) (s : Store)
      → AreSent content earlier
      → Inv content f
      → is_banned peer_id (on_frames earlier f).page.blacklist ≡ false
      → lookup id s.files ≡ some row
      → row.blob ≡ some (content id)
      → row.size ≡ length (content id)
      → (id === []) ≡ false
      → chunk_count content id ≤ 4294967295
      → let sending = replay_file_send true (λ k. true) true msg_id (b'%' ∷ id) s in
        let g = on_frames (arriving peer_id now (offer_of row) sending.0) (on_frames earlier f) in
        (sending.1 ≡ true)
        × (file_bytes id g ≡ some (content id))
        × (is_there (lookup msg_id g.page.store.messages) ≡ true)
        × In (delivery_ack_out peer_id msg_id) g.page.outs
  unfolding on_frames on_frame
  replay_arrives earlier f peer_id id msg_id now row s true_ones h b e blob size named few =
      let o = offer_of row in
      let n = chunk_count content id in
      let frames = loop chunk_bytes (content id) n 0 in
      let g0 = on_frames earlier f in
      let o_size : o.size ≡ length (content id) = unfold offer_of in size in
      let (h1, meta, (arr, bucket)) =
        offered peer_id id o g0 b (on_frames-Inv content earlier f true_ones h) o_size in
      let g1 = on_file_offer peer_id id o g0 in
      let (full, metas, page) = chunks_run peer_id id now o frames g1 arr bucket in
      let g2 = on_frames (arriving peer_id now o (chunks_of id frames)) g1 in
      let (chunks, short) = in_bucket id arr (rw bucket at (h1.buckets id)) in
      let whole = refilled chunk_bytes (content id) arr (omega arith) few chunks short in
      let there = h1.kept id (ap is_there meta) in
      let (bytes, saved, acked) =
        ended peer_id id msg_id now (row_of o) (on_chunks frames arr) g2
          (ap (λ (p : Page). p.persists) page ∙ h1.persists)
          (ap (λ (p : Page). is_there (lookup id p.store.files)) page ∙ there) full
          (ap (lookup id) metas ∙ meta)
          (ap (λ k. reassemble k (on_chunks frames arr)) o_size ∙ whole) in
      rw
        (
          replay_lem msg_id id row (content id) s e blob named,
          arriving-append peer_id now o (chunks_of id frames) (end id msg_id ∷ []),
          on_frames-append (arriving peer_id now o (chunks_of id frames))
              (arriving peer_id now o (end id msg_id ∷ [])) g1,
        )
        (refl, bytes, saved, acked)
