-- ===== src/Files/Outgoing/Arrival.antt =====
-- A file that is sent over a bad connection, and sent again (`web/app.js`).
use tele.Book.{is_banned}
use tele.Inbox.Delivery.{In}
use tele.Inbox.Blocked.{replay_file_send}
use tele.Files.Inbound.{Frame, Inbound, on_frames}
use tele.Files.Inbound.Stored.{file_bytes}
use tele.Files.Inbound.Replay.{offer_of, arriving, replay_arrives}
use tele.Prelude.{
  ℕ, ◌≤◌, ◌≡◌, sym, ap, ◌∙◌, inl, inr, Bool, true, false, Option, none, some, List, [], ◌∷◌,
  Bool-cases, Option-cases, ◌===◌, length,
}
use tele.Bytes.{Text, Bytes}
use tele.Table.{lookup, put, lookup-put_self}
use tele.Storage.{sent, FileRow, Store, mark_status, save_file_meta, save_file_blob}
use tele.Files.{chunk_bytes, send_all}
use tele.Inbox.{delivery_ack_out, Page}
use tele.Files.Inbound.Honest.{is_there, chunk_count, AreSent, Inv}
use tele.Files.Outgoing.{LocalFile, file_row, keep_file, send_file}

whole_row : LocalFile → Option Text → FileRow
whole_row file thumb = record (file_row file thumb) { blob = some file.bytes }

-- The file with its bytes, and the message in the retry queue.
abbrev IsKept : Text → Text → LocalFile → Option Text → Store → Type 0
IsKept id msg_id file thumb s =
    (lookup id s.files ≡ some (whole_row file thumb)) × (is_there (lookup msg_id s.outbox) ≡ true)

keep_file-IsKept :
    (id msg_id : Text) (now : ℕ) (peer_id : Text) (file : LocalFile) (thumb : Option Text)
    (s : Store)
    → IsKept id msg_id file thumb (keep_file id msg_id now peer_id file thumb s)
unfolding keep_file save_file_blob save_file_meta whole_row
keep_file-IsKept id msg_id now peer_id file thumb s =
    let row = record (file_row file thumb) { blob = none } in
    let there = lookup-put_self id row s.files in
    rw (there, save_file_blob)
      (
        lookup-put_self id (whole_row file thumb) (put id row s.files),
        ap is_there (lookup-put_self msg_id _ _),
      )

sent-IsKept :
    (id msg_id : Text) (file : LocalFile) (thumb : Option Text) (s : Store)
    → IsKept id msg_id file thumb s
    → IsKept id msg_id file thumb (mark_status msg_id sent s)
unfolding mark_status
sent-IsKept id msg_id file thumb s h = elim (Option-cases (lookup msg_id s.messages)) [
  | inl n ↦ rw (n, mark_status) h
  | inr (m, n) ↦ rw (n, mark_status) h
]

send_file-IsKept :
    (id msg_id : Text) (now : ℕ) (file : LocalFile) (thumb : Option Text) (offered : Bool)
    (chunked : ℕ → Bool) (ended online : Bool) (peer_id : Text) (p : Page)
    → p.current ≡ some peer_id
    → p.persists ≡ true
    → IsKept id msg_id file thumb
        (send_file id msg_id now file thumb offered chunked ended online p).1.store
unfolding send_file
send_file-IsKept id msg_id now file thumb offered chunked ended online peer_id p c h =
    let kept = keep_file-IsKept id msg_id now peer_id file thumb p.store in
    elim (Bool-cases (send_all chunk_bytes file.bytes chunked).1) [
      | inl a ↦ elim (Bool-cases online) [
        | inl o ↦ rw (c, send_file, h, a, o) (sent-IsKept id msg_id file thumb _ kept)
        | inr o ↦ rw (c, send_file, h, a, o) (sent-IsKept id msg_id file thumb _ kept)
      ]
      | inr a ↦ rw (c, send_file, h, a) kept
    ]

-- The user sends a file to the peer of the open chat, and any of its frames fail to go out. It stays in
-- the retry queue; and if one retry sends it whole and the receiver has not banned the user, then
-- whatever had come before from peers who send files as they are, the receiver has stored its bytes
-- and the message, and has acknowledged it.
pub sent_arrives :
    (content : Text → Bytes) (id msg_id from_id to_id : Text) (now later : ℕ) (file : LocalFile)
    (thumb : Option Text) (offered : Bool) (chunked : ℕ → Bool) (ended online : Bool) (p : Page)
    (earlier : List (Text × ℕ × Frame)) (f : Inbound)
    → p.current ≡ some to_id
    → p.persists ≡ true
    → file.bytes ≡ content id
    → (id === []) ≡ false
    → chunk_count content id ≤ 4294967295
    → AreSent content earlier
    → Inv content f
    → is_banned from_id (on_frames earlier f).page.blacklist ≡ false
    → let s = (send_file id msg_id now file thumb offered chunked ended online p).1.store in
      let sending = replay_file_send true (λ k. true) true msg_id (b'%' ∷ id) s in
      let o = offer_of (record (file_row file thumb) { blob = some file.bytes }) in
      let g = on_frames (arriving from_id later o sending.0) (on_frames earlier f) in
      (is_there (lookup msg_id s.outbox) ≡ true)
      × (sending.1 ≡ true)
      × (file_bytes id g ≡ some file.bytes)
      × (is_there (lookup msg_id g.page.store.messages) ≡ true)
      × In (delivery_ack_out from_id msg_id) g.page.outs
unfolding whole_row
sent_arrives content id msg_id from_id to_id now later file thumb offered chunked ended online p
      earlier f c h e named few true_ones inv b =
    let s = (send_file id msg_id now file thumb offered chunked ended online p).1.store in
    let (row, queued) =
      send_file-IsKept id msg_id now file thumb offered chunked ended online to_id p c h in
    let (all, bytes, saved, acked) =
      replay_arrives content earlier f from_id id msg_id later (whole_row file thumb) s true_ones
        inv b row (ap some e) (ap length e) named few in
    (queued, all, bytes ∙ ap some (sym e), saved, acked)
