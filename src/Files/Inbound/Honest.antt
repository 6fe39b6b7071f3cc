-- ===== src/Files/Inbound/Honest.antt =====
-- Frames of peers who send their files as they are: offers, chunks and texts keep what the page has
-- of a file true to it (`web/app.js`).
use tele.Prelude.{
  ℕ, ◌≤◌, ◌<◌, ◌≡◌, refl, ◌∙◌, inl, inr, Bool, true, false, Option, none, some, List, [], ◌∷◌,
  arith, ltb, Bool-cases, Option-cases, ◌===◌, length,
}
use tele.Bytes.{Text, Bytes}
use tele.Table.{Table, lookup, put, lookup-put, put_keeps}
use tele.Storage.{FileRow, save_incoming, save_file_meta}
use tele.Book.{is_banned}
use tele.Files.{chunk_bytes, total_chunks, chunk_at, Bucket, on_chunk}
use tele.Files.Chunks.{AreChunks, AreChunks-set_at}
use tele.Files.Refill.{length-set_at}
use tele.Inbox.{Page, show_text, on_text}
use tele.Files.Inbound.{
  Offer, Frame, file_offer, file_chunk, file_end, message, Inbound, row_of, bucket_of,
  on_file_offer, on_file_chunk,
}

abbrev pub is_there {ℓ} : {A : Type ℓ} → Option A → Bool
is_there none = false
is_there (some x) = true

abbrev pub IsBlob : Bytes → Option Bytes → Type 0
IsBlob c none = Unit {0}
IsBlob c (some b) = b ≡ c

put_both :
    {V W : Type 0} (id : Text) (v : V) (w : W) (t : Table V) (u : Table W) (k : Text)
    → (is_there (lookup k t) ≡ true → is_there (lookup k u) ≡ true)
    → is_there (lookup k (put id v t)) ≡ true
    → is_there (lookup k (put id w u)) ≡ true
put_both id v w t u k h =
    rw (lookup-put id k v t, lookup-put id k w u)
      (elim (Bool-cases (id === k)) [ inl e ↦ rw e (λ q. refl) | inr e ↦ rw e h ])

on_text-files :
    (peer_id msg_id text : Text) (now : ℕ) (p : Page)
    → ((on_text peer_id msg_id text now p).store.files ≡ p.store.files)
      × ((on_text peer_id msg_id text now p).persists ≡ p.persists)
unfolding on_text show_text save_incoming
on_text-files peer_id msg_id text now p = ground arith

-- `content` gives the bytes that were sent under each id.
module _ (content : Text → Bytes) where
  abbrev pub chunk_count : Text → ℕ
  chunk_count id = total_chunks chunk_bytes (length (content id))

  -- A frame of somebody who sends the file of an id as it is.
  abbrev pub IsSent : Frame → Type 0
  IsSent (file_offer id o) = o.size ≡ length (content id)
  IsSent (file_chunk id i v) = (v ≡ chunk_at chunk_bytes (content id) i) × (i < chunk_count id)
  IsSent (file_end id msg_id) = Unit {0}
  IsSent (message msg_id text) = Unit {0}

  abbrev pub AreSent : List (Text × ℕ × Frame) → Type 0
  AreSent [] = Unit {0}
  AreSent ((peer_id, now, x) ∷ frames) = IsSent x × AreSent frames

  abbrev pub IsRow : Text → Option FileRow → Type 0
  IsRow id none = Unit {0}
  IsRow id (some r) = (r.size ≡ length (content id)) × IsBlob (content id) r.blob

  abbrev pub IsBucket : Text → Option Bucket → Type 0
  IsBucket id none = Unit {0}
  IsBucket id (some arr) = AreChunks chunk_bytes (content id) 0 arr × (length arr ≤ chunk_count id)

  pub row_size : (id : Text) (r : FileRow) → IsRow id (some r) → r.size ≡ length (content id)
  row_size id r h = h.0

  pub whole_bucket :
      (id : Text) (arr : Bucket) → IsBucket id (some arr) → AreChunks chunk_bytes (content id) 0 arr
  whole_bucket id arr h = h.0

  -- A page that stores chats: what it has of a file are bytes of that file, and what it has been
  -- offered it has a row for.
  pub record Inv (f : Inbound) : Type 0 where
    pub persists : f.page.persists ≡ true
    pub buckets : (k : Text) → IsBucket k (lookup k f.chunks)
    pub metas : (k : Text) → IsRow k (lookup k f.metas)
    pub rows : (k : Text) → IsRow k (lookup k f.page.store.files)
    pub kept :
        (k : Text)
        → is_there (lookup k f.metas) ≡ true
        → is_there (lookup k f.page.store.files) ≡ true

  IsBucket-bucket_of :
      (id : Text) (o : Option Bucket)
      → IsBucket id o
      → AreChunks chunk_bytes (content id) 0 (bucket_of o) × (length (bucket_of o) ≤ chunk_count id)
  IsBucket-bucket_of id none h = (tt, omega arith)
  IsBucket-bucket_of id (some arr) h = h

  on_chunk-IsBucket :
      (id : Text) (i : ℕ) (v : Bytes) (o : Option Bucket)
      → IsSent (file_chunk id i v)
      → IsBucket id o
      → IsBucket id (some (on_chunk i v (bucket_of o)))
  unfolding on_chunk
  on_chunk-IsBucket id i v o s h =
      let (a, n) = IsBucket-bucket_of id o h in
      elim (Bool-cases (ltb i 4294967295)) [
        | inl e ↦
            rw (e, s.0)
              (
                AreChunks-set_at chunk_bytes (content id) 0 i i (bucket_of o) (omega arith) a,
                length-set_at i _ (bucket_of o) (chunk_count id) s.1 n,
              )
        | inr e ↦ rw e (a, n)
      ]

  pub on_file_chunk-Inv :
      (id : Text) (i : ℕ) (v : Bytes) (f : Inbound)
      → IsSent (file_chunk id i v)
      → Inv f
      → Inv (on_file_chunk id i v f)
  unfolding on_file_chunk
  on_file_chunk-Inv id i v f s h = record {
    persists = h.persists;
    buckets =
        put_keeps IsBucket id _ f.chunks
          (on_chunk-IsBucket id i v (lookup id f.chunks) s (h.buckets id)) h.buckets;
    metas = h.metas;
    rows = h.rows;
    kept = h.kept;
  }

  fresh-IsBucket :
      (id : Text) (f : Inbound)
      → Inv f
      → (k : Text)
      → IsBucket k
          (lookup k (elim (lookup id f.chunks) [ some arr ↦ f.chunks | none ↦ put id [] f.chunks ]))
  fresh-IsBucket id f h = elim (Option-cases (lookup id f.chunks)) [
    | inl e ↦ rw e (put_keeps IsBucket id [] f.chunks (tt, omega arith) h.buckets)
    | inr (arr, e) ↦ rw e h.buckets
  ]

  pub on_file_offer-Inv :
      (peer_id id : Text) (o : Offer) (f : Inbound)
      → IsSent (file_offer id o)
      → Inv f
      → Inv (on_file_offer peer_id id o f)
  unfolding on_file_offer save_file_meta
  on_file_offer-Inv peer_id id o f s h = elim (Bool-cases (is_banned peer_id f.page.blacklist)) [
    | inl e ↦ rw (e, on_file_offer) h
    | inr e ↦
        rw (e, on_file_offer, h.persists)
          (record {
            persists = refl;
            buckets = fresh-IsBucket id f h;
            metas = put_keeps IsRow id (row_of o) f.metas (s, tt) h.metas;
            rows = put_keeps IsRow id _ f.page.store.files (s, tt) h.rows;
            kept = λ k. put_both id (row_of o) _ f.metas f.page.store.files k (h.kept k);
          })
  ]

  pub on_message-Inv :
      (peer_id msg_id text : Text) (now : ℕ) (f : Inbound)
      → Inv f
      → Inv (record f { page = on_text peer_id msg_id text now f.page })
  on_message-Inv peer_id msg_id text now f h =
      let (e, p) = on_text-files peer_id msg_id text now f.page in
      record {
        persists = p ∙ h.persists;
        buckets = h.buckets;
        metas = h.metas;
        rows = rw e h.rows;
        kept = rw e h.kept;
      }
