-- ===== src/Files/Inbound/Stored.antt =====
-- What a page has stored of the files that were sent to it (`web/app.js`).
use mathlib.Core.Option.{some-injective}
use tele.Prelude.{
  ℕ, ◌≡◌, refl, sym, ap, ◌∙◌, ◌⊎◌, inl, inr, true, Option, none, some, List, [], ◌∷◌, arith,
  Option-cases,
}
use tele.Bytes.{Text, Bytes}
use tele.Table.{lookup, lookup-put_self}
use tele.Storage.{FileRow, Store, save_incoming, save_file_blob}
use tele.Files.Inbound.{
  Frame, file_offer, file_chunk, file_end, message, Inbound, accept_file, on_file_end, on_frame,
  on_frames,
}
use tele.Files.Inbound.Honest.{
  is_there, IsBlob, IsSent, AreSent, IsRow, Inv, on_file_chunk-Inv, on_file_offer-Inv,
  on_message-Inv,
}
use tele.Files.Inbound.Ended.{
  save_incoming-files, accept_file-page, on_file_end-cases, on_file_end-Inv,
}

abbrev blob_in : Option FileRow → Option Bytes
blob_in none = none
blob_in (some r) = r.blob

-- The bytes that the page has stored under an id.
abbrev pub file_bytes : Text → Inbound → Option Bytes
file_bytes id f = blob_in (lookup id f.page.store.files)

some_true : (c : Bytes) (o : Option Bytes) (b : Bytes) → IsBlob c o → o ≡ some b → b ≡ c
some_true c none b h e = absurd (cc e)
some_true c (some x) b h e = sym (some-injective x b e) ∙ h

save_file_blob-bytes :
    (id : Text) (blob : Bytes) (s : Store)
    → is_there (lookup id s.files) ≡ true
    → blob_in (lookup id (save_file_blob id blob s).files) ≡ some blob
unfolding save_file_blob
save_file_blob-bytes id blob s h = elim (Option-cases (lookup id s.files)) [
  | inl n ↦ absurd (ground (arith, n, h))
  | inr (r, n) ↦
      rw (n, save_file_blob) (rw (lookup-put_self id (record r { blob = some blob }) s.files) refl)
]

save_incoming-there :
    (peer_id msg_id body : Text) (now : ℕ) (s : Store)
    → is_there (lookup msg_id (save_incoming peer_id msg_id body now now s).1.messages) ≡ true
unfolding save_incoming
save_incoming-there peer_id msg_id body now s = elim (Option-cases (lookup msg_id s.messages)) [
  | inl n ↦ rw (n, save_incoming) (ap is_there (lookup-put_self msg_id _ s.messages))
  | inr (m, n) ↦ rw (n, save_incoming) (ap is_there n)
]

-- `content` gives the bytes that were sent under each id.
module _ (content : Text → Bytes) where
  on_frame-Inv :
      (peer_id : Text) (now : ℕ) (x : Frame) (f : Inbound)
      → IsSent content x
      → Inv content f
      → Inv content (on_frame peer_id now x f)
  unfolding on_frame
  on_frame-Inv peer_id now (file_offer id o) f s h = on_file_offer-Inv content peer_id id o f s h
  on_frame-Inv peer_id now (file_chunk id i v) f s h = on_file_chunk-Inv content id i v f s h
  on_frame-Inv peer_id now (file_end id msg_id) f s h =
      on_file_end-Inv content peer_id id msg_id now f h
  on_frame-Inv peer_id now (message msg_id text) f s h =
      on_message-Inv content peer_id msg_id text now f h

  pub on_frames-Inv :
      (frames : List (Text × ℕ × Frame)) (f : Inbound)
      → AreSent content frames
      → Inv content f
      → Inv content (on_frames frames f)
  unfolding on_frames
  on_frames-Inv [] f s h = h
  on_frames-Inv ((peer_id, now, x) ∷ frames) f s h =
      on_frames-Inv frames (on_frame peer_id now x f) s.1 (on_frame-Inv peer_id now x f s.0 h)

  row_bytes :
      (id : Text) (o : Option FileRow) (b : Bytes)
      → IsRow content id o
      → blob_in o ≡ some b
      → b ≡ content id
  row_bytes id none b h e = absurd (cc e)
  row_bytes id (some r) b h e = some_true (content id) r.blob b h.1 e

  -- Whatever frames arrive of peers who send their files as they are, in whatever order, how often, and
  -- mixed in whatever way: what the page has stored under the id of a file are the bytes that were sent
  -- under it.
  pub stored_is_sent :
      (frames : List (Text × ℕ × Frame)) (f : Inbound)
      → AreSent content frames
      → Inv content f
      → (id : Text) (b : Bytes) → file_bytes id (on_frames frames f) ≡ some b
      → b ≡ content id
  stored_is_sent frames f s h id b e =
      row_bytes id (lookup id (on_frames frames f).page.store.files) b
        ((on_frames-Inv frames f s h).rows id) e

  pub accepted_there :
      (peer_id id msg_id : Text) (now : ℕ) (f : Inbound)
      → f.page.persists ≡ true
      → is_there (lookup id f.page.store.files) ≡ true
      → (file_bytes id (accept_file peer_id id msg_id (content id) now f) ≡ some (content id))
        × (is_there
              (lookup msg_id (accept_file peer_id id msg_id (content id) now f).page.store.messages)
            ≡ true)
  accepted_there peer_id id msg_id now f p there =
      let (e, _) = accept_file-page peer_id id msg_id (content id) now f p in
      let s = save_file_blob id (content id) f.page.store in
      let body = b'%' ∷ id in
      rw e (
        rw (save_incoming-files peer_id msg_id body now s)
            (save_file_blob-bytes id (content id) f.page.store there),
        save_incoming-there peer_id msg_id body now s,
      )

  -- With saved chats, and after such frames, the end of a file either sends nothing, or the page has
  -- stored just the bytes that were sent under the id, and the message: only what has arrived whole is
  -- acknowledged.
  pub acked_is_stored :
      (frames : List (Text × ℕ × Frame)) (f : Inbound) (peer_id id msg_id : Text) (now : ℕ)
      → f.page.persists ≡ true
      → AreSent content frames
      → Inv content f
      → let g = on_frames frames f in
        let g' = on_file_end peer_id id msg_id now g in
        (g'.page.outs ≡ g.page.outs)
        ⊎ ((file_bytes id g' ≡ some (content id))
            × (is_there (lookup msg_id g'.page.store.messages) ≡ true))
  acked_is_stored frames f peer_id id msg_id now p s h =
      let g = on_frames frames f in
      let hg = on_frames-Inv frames f s h in
      elim (on_file_end-cases content peer_id id msg_id now g hg) [
        | inl e ↦ inl (ap (λ (x : Inbound). x.page.outs) e)
        | inr (inl e) ↦ inl (ap (λ (x : Inbound). x.page.outs) e)
        | inr (inr (e, there)) ↦
            inr (rw e (accepted_there peer_id id msg_id now g hg.persists there))
      ]
