-- ===== src/Files/Outgoing.antt =====
-- A file that the user sends: sendFile of `web/app.js`.
pub mod Arrival
use tele.Prelude.{
  ℕ, Bool, false, not, Option, none, some, List, [], ◌∷◌, ◌++◌, if◌then◌else◌, codes, length,
}
use tele.Bytes.{Text, Bytes}
use tele.Table.{put}
use tele.Storage.{
  outgoing, pending, sent, Message, OutboxEntry, FileRow, Store, mark_status, save_file_meta,
  save_file_blob,
}
use tele.Files.{chunk_bytes, send_all}
use tele.Inbox.{introduce_out, wake_out, Page, put_out}
use tele.Inbox.Blocked.{Wired, offer, end, chunks_of}
use tele.Files.Inbound.{thumb_of}

-- A File of the browser, read into memory.
pub record LocalFile : Type 0 where
  pub name : Text
  pub type : Text
  pub bytes : Bytes

-- `file.type || 'application/octet-stream'`
abbrev pub mime_of : Text → Text
mime_of [] = codes "application/octet-stream"
mime_of (c ∷ s) = c ∷ s

-- The row of the file, before its blob. `thumb` is what makeThumb gives, which is base64.
abbrev pub file_row : LocalFile → Option Text → FileRow
file_row file thumb = record {
  mime = mime_of file.type;
  name = file.name;
  size = length file.bytes;
  blob = none;
  thumb_blob = thumb_of thumb;
}

-- What sendFile writes to the database. The message has no `seq`.
unfoldable pub keep_file : Text → Text → ℕ → Text → LocalFile → Option Text → Store → Store
unfolding save_file_meta save_file_blob
keep_file id msg_id now peer_id file thumb s =
    let s' = save_file_blob id file.bytes (save_file_meta id (file_row file thumb) s) in
    let m : Message = record {
      peer_id = peer_id;
      dir = outgoing;
      body = b'%' ∷ id;
      ts = now;
      seq = 0;
      status = pending;
      edited = false;
    } in
    let q : OutboxEntry = record { attempts = 0; last_try_ts = 0; mailbox_nonce = none } in
    record s' { messages = put msg_id m s'.messages; outbox = put msg_id q s'.outbox }

-- sendFile to the peer of the open chat, with the frames that go out. The Booleans are what
-- sendFileOffer, sendFileChunk for an index and sendFileEnd return, and the presence of the peer.
unfoldable pub send_file :
    Text
    → Text
    → ℕ
    → LocalFile
    → Option Text
    → Bool
    → (ℕ → Bool)
    → Bool
    → Bool
    → Page
    → List Wired × Page
unfolding keep_file send_all mark_status thumb_of
send_file id msg_id now file thumb offered chunked ended online p = elim p.current [
  | none ↦ ([], p)
  | some peer_id ↦
      let kept =
        if p.persists then keep_file id msg_id now peer_id file thumb p.store else p.store in
      let p1 = put_out (introduce_out peer_id) (record p { store = kept }) in
      let (frames, all) = send_all chunk_bytes file.bytes chunked in
      let begun = (if offered then offer id ∷ [] else []) ++ chunks_of id frames in
      let p2 = record p1 {
        store = if p1.persists then mark_status msg_id sent p1.store else p1.store;
      } in
      if not all then (begun, p1) else (
        begun ++ (if ended then end id msg_id ∷ [] else []),
        if online then p2 else put_out (wake_out peer_id) p2,
      )
]
