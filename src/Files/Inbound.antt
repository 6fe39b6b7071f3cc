-- ===== src/Files/Inbound.antt =====
-- Files on the page: the handlers onFileOffer, onFileChunk and onFileEnd of `web/app.js`. A handler is
-- atomic; an id of a peer is its hex text.

pub mod Honest
pub mod Ended
pub mod Stored
pub mod Replay
pub mod Wiped
use tele.Prelude.{ℕ, true, Option, none, some, List, [], ◌∷◌, if◌then◌else◌}
use tele.Bytes.{Text, Bytes}
use tele.Bytes.Base64.{atob}
use tele.Table.{Table, lookup, put, delete}
use tele.Storage.{FileRow, save_incoming, save_file_meta, save_file_blob, get_file}
use tele.Book.{is_banned}
use tele.Files.{Bucket, on_chunk, reassemble}
use tele.Inbox.{delivery_ack_out, Page, put_out, show_text, on_text}

-- The metadata of a FILE_OFFER; `size` is `Number(meta.size) || 0`.
pub record Offer : Type 0 where
  pub mime : Text
  pub name : Text
  pub size : ℕ
  pub thumb_b64 : Option Text

-- FILE_OFFER, FILE_CHUNK and FILE_END, each with the id of the file, and a text.
pub data Frame : Type 0 where
  file_offer : Text → Offer → Frame
  file_chunk : Text → ℕ → Bytes → Frame
  file_end message : Text → Text → Frame

-- inboundChunks and inboundMetaMem beside the rest of the page.
pub record Inbound : Type 0 where
  pub page : Page
  pub chunks : Table Bucket
  pub metas : Table FileRow

-- `meta.thumb_b64` decoded; an empty one and one that is no base64 leave null.
unfoldable pub thumb_of : Option Text → Option Bytes
unfolding atob
thumb_of none = none
thumb_of (some []) = none
thumb_of (some (c ∷ s)) = atob (c ∷ s)

abbrev pub row_of : Offer → FileRow
row_of o = record {
  mime = o.mime;
  name = o.name;
  size = o.size;
  blob = none;
  thumb_blob = thumb_of o.thumb_b64;
}

abbrev pub bucket_of : Option Bucket → Bucket
bucket_of none = []
bucket_of (some arr) = arr

-- onFileOffer
unfoldable pub on_file_offer : Text → Text → Offer → Inbound → Inbound
unfolding is_banned save_file_meta
on_file_offer peer_id id o f = if is_banned peer_id f.page.blacklist then f else record f {
  chunks = elim (lookup id f.chunks) [ some arr ↦ f.chunks | none ↦ put id [] f.chunks ];
  metas = put id (row_of o) f.metas;
  page = record f.page {
    store = if f.page.persists then save_file_meta id (row_of o) f.page.store else f.page.store;
  };
}

-- onFileChunk
unfoldable pub on_file_chunk : Text → ℕ → Bytes → Inbound → Inbound
unfolding on_chunk
on_file_chunk id idx v f = record f {
  chunks = put id (on_chunk idx v (bucket_of (lookup id f.chunks))) f.chunks;
}

-- The memory mirror, and else the database.
unfoldable pub meta_of : Text → Inbound → Option FileRow
unfolding get_file
meta_of id f = elim (lookup id f.metas) [
  | some m ↦ some m
  | none ↦ if f.page.persists then get_file id f.page.store else none
]

-- The part of onFileEnd for a file that is whole. What is shown is done as in onText.
unfoldable pub accept_file : Text → Text → Text → Bytes → ℕ → Inbound → Inbound
unfolding save_file_blob save_incoming show_text
accept_file peer_id id msg_id blob now f =
    let (fresh, store) =
      save_incoming peer_id msg_id (b'%' ∷ id) now now (save_file_blob id blob f.page.store) in
    let is_new = if f.page.persists then fresh else true in
    let p =
      put_out (delivery_ack_out peer_id msg_id)
        (record f.page { store = if f.page.persists then store else f.page.store }) in
    record f {
      chunks = delete id f.chunks;
      metas = delete id f.metas;
      page = if is_new then show_text peer_id msg_id p else p;
    }

-- onFileEnd
unfoldable pub on_file_end : Text → Text → Text → ℕ → Inbound → Inbound
unfolding meta_of accept_file reassemble
on_file_end peer_id id msg_id now f = elim (lookup id f.chunks) [
  | none ↦ f
  | some arr ↦ elim (meta_of id f) [
    | none ↦ f
    | some m ↦ elim (reassemble m.size arr) [
      | none ↦ record f { chunks = delete id f.chunks; metas = delete id f.metas }
      | some blob ↦ accept_file peer_id id msg_id blob now f
    ]
  ]
]

-- A frame of a peer, at some time.
unfoldable pub on_frame : Text → ℕ → Frame → Inbound → Inbound
unfolding on_file_offer on_file_chunk on_file_end on_text
on_frame peer_id now (file_offer id o) f = on_file_offer peer_id id o f
on_frame peer_id now (file_chunk id idx v) f = on_file_chunk id idx v f
on_frame peer_id now (file_end id msg_id) f = on_file_end peer_id id msg_id now f
on_frame peer_id now (message msg_id text) f = record f {
  page = on_text peer_id msg_id text now f.page;
}

-- Frames with their senders and times, the oldest first.
unfoldable pub on_frames : List (Text × ℕ × Frame) → Inbound → Inbound
unfolding on_frame
on_frames [] f = f
on_frames ((peer_id, now, x) ∷ frames) f = on_frames frames (on_frame peer_id now x f)
