-- ===== src/Files/Inbound/Ended.antt =====
-- The end of a file: what onFileEnd of `web/app.js` takes in.
use tele.Prelude.{
  ℕ, ◌≡◌, refl, sym, ap, ◌∙◌, ◌⊎◌, inl, inr, true, some, ◌∷◌, arith, Bool-cases, Option-cases,
  ◌===◌, length,
}
use tele.Bytes.{Text, Bytes}
use tele.Table.{lookup, delete, lookup-put, lookup-delete, put_keeps, delete_keeps}
use tele.Storage.{FileRow, Store, save_incoming, save_file_blob, get_file}
use tele.Files.{chunk_bytes, reassemble}
use tele.Files.Transfer.{accepted_chunks}
use tele.Inbox.{show_text}
use tele.Files.Inbound.{Inbound, meta_of, accept_file, on_file_end}
use tele.Files.Inbound.Honest.{is_there, IsRow, IsBucket, row_size, whole_bucket, Inv}

pub save_incoming-files :
    (peer_id msg_id body : Text) (now : ℕ) (s : Store)
    → (save_incoming peer_id msg_id body now now s).1.files ≡ s.files
unfolding save_incoming
save_incoming-files peer_id msg_id body now s = ground arith

pub accept_file-page :
    (peer_id id msg_id : Text) (blob : Bytes) (now : ℕ) (f : Inbound)
    → f.page.persists ≡ true
    → ((accept_file peer_id id msg_id blob now f).page.store
        ≡ (save_incoming peer_id msg_id
            (b'%' ∷ id)
            now
            now
            (save_file_blob id blob f.page.store)).1)
      × ((accept_file peer_id id msg_id blob now f).page.persists ≡ true)
unfolding accept_file show_text
accept_file-page peer_id id msg_id blob now f h = ground (arith, h)

accept_file-tables :
    (peer_id id msg_id : Text) (blob : Bytes) (now : ℕ) (f : Inbound)
    → ((accept_file peer_id id msg_id blob now f).chunks ≡ delete id f.chunks)
      × ((accept_file peer_id id msg_id blob now f).metas ≡ delete id f.metas)
unfolding accept_file
accept_file-tables peer_id id msg_id blob now f = (refl, refl)

-- `content` gives the bytes that were sent under each id.
module _ (content : Text → Bytes) where
  save_file_blob-IsRow :
      (id : Text) (blob : Bytes) (s : Store)
      → blob ≡ content id
      → ((k : Text) → IsRow content k (lookup k s.files))
      → (k : Text) → IsRow content k (lookup k (save_file_blob id blob s).files)
  unfolding save_file_blob
  save_file_blob-IsRow id blob s e h = elim (Option-cases (lookup id s.files)) [
    | inl n ↦ rw (n, save_file_blob) h
    | inr (r, n) ↦
        rw (n, save_file_blob)
          (put_keeps (IsRow content) id _ s.files (row_size content id r (rw n at (h id)), e) h)
  ]

  meta_of-IsRow :
      (id : Text) (f : Inbound) (m : FileRow)
      → Inv content f
      → meta_of id f ≡ some m
      → (m.size ≡ length (content id)) × (is_there (lookup id f.page.store.files) ≡ true)
  unfolding meta_of get_file
  meta_of-IsRow id f m h e = elim (Option-cases (lookup id f.metas)) [
    | inl n ↦
        let q : lookup id f.page.store.files ≡ some m =
          sym (rw (n, meta_of, h.persists) refl) ∙ e in
        (row_size content id m (rw q at (h.rows id)), rw q refl)
    | inr (m', n) ↦
        let q : some m' ≡ some m = sym (rw (n, meta_of) refl) ∙ e in
        (row_size content id m (rw (n ∙ q) at (h.metas id)), h.kept id (rw n refl))
  ]

  -- What a FILE_END leads to: nothing, a file that is given up, or one that is taken in whole.
  pub on_file_end-cases :
      (peer_id id msg_id : Text) (now : ℕ) (f : Inbound)
      → Inv content f
      → (on_file_end peer_id id msg_id now f ≡ f)
        ⊎ ((on_file_end peer_id id msg_id now f
              ≡ record f { chunks = delete id f.chunks; metas = delete id f.metas })
            ⊎ ((on_file_end peer_id id msg_id now f
                  ≡ accept_file peer_id id msg_id (content id) now f)
                × (is_there (lookup id f.page.store.files) ≡ true)))
  unfolding on_file_end
  on_file_end-cases peer_id id msg_id now f h = elim (Option-cases (lookup id f.chunks)) [
    | inl e ↦ inl (rw (e, on_file_end) refl)
    | inr (arr, e) ↦ elim (Option-cases (meta_of id f)) [
      | inl n ↦ inl (rw (e, on_file_end, n) refl)
      | inr (m, n) ↦ elim (Option-cases (reassemble m.size arr)) [
        | inl r ↦ inr (inl (rw (e, on_file_end, n, r) refl))
        | inr (blob, r) ↦
            let (size, there) = meta_of-IsRow id f m h n in
            let same =
              accepted_chunks chunk_bytes (content id) blob arr
                (whole_bucket content id arr (rw e at (h.buckets id))) (rw size at r) in
            inr (
              inr (
                rw (e, on_file_end, n, r) (ap (λ b. accept_file peer_id id msg_id b now f) same),
                there,
              ))
      ]
    ]
  ]

  dropped_kept :
      (id : Text) (f : Inbound) (k : Text)
      → (is_there (lookup k f.metas) ≡ true → is_there (lookup k f.page.store.files) ≡ true)
      → is_there (lookup k (delete id f.metas)) ≡ true
      → is_there (lookup k f.page.store.files) ≡ true
  dropped_kept id f k h =
      rw (lookup-delete id k f.metas)
        (elim (Bool-cases (id === k)) [ inl e ↦ rw e (λ q. absurd (cc q)) | inr e ↦ rw e h ])

  dropped-Inv :
      (id : Text) (f : Inbound)
      → Inv content f
      → Inv content (record f { chunks = delete id f.chunks; metas = delete id f.metas })
  dropped-Inv id f h = record {
    persists = h.persists;
    buckets = delete_keeps (IsBucket content) id f.chunks tt h.buckets;
    metas = delete_keeps (IsRow content) id f.metas tt h.metas;
    rows = h.rows;
    kept = λ k. dropped_kept id f k (h.kept k);
  }

  save_file_blob-there :
      (id : Text) (blob : Bytes) (s : Store) (k : Text)
      → is_there (lookup k s.files) ≡ true
      → is_there (lookup k (save_file_blob id blob s).files) ≡ true
  unfolding save_file_blob
  save_file_blob-there id blob s k h = elim (Option-cases (lookup id s.files)) [
    | inl n ↦ rw (n, save_file_blob) h
    | inr (r, n) ↦
        rw (n, save_file_blob)
          (rw (lookup-put id k (record r { blob = some blob }) s.files)
            (elim (Bool-cases (id === k)) [ inl e ↦ rw e refl | inr e ↦ rw e h ]))
  ]

  accept_file-Inv :
      (peer_id id msg_id : Text) (now : ℕ) (f : Inbound)
      → Inv content f
      → Inv content (accept_file peer_id id msg_id (content id) now f)
  accept_file-Inv peer_id id msg_id now f h =
      let (e, p) = accept_file-page peer_id id msg_id (content id) now f h.persists in
      let (c, m) = accept_file-tables peer_id id msg_id (content id) now f in
      let files =
        ap (λ (s : Store). s.files) e
        ∙ save_incoming-files peer_id msg_id (b'%' ∷ id) now
            (save_file_blob id (content id) f.page.store) in
      let d = dropped-Inv id f h in
      record {
        persists = p;
        buckets = rw c d.buckets;
        metas = rw m d.metas;
        rows = rw files (save_file_blob-IsRow id (content id) f.page.store refl h.rows);
        kept =
            rw (files, m) (λ k q. save_file_blob-there id (content id) f.page.store k (d.kept k q));
      }

  pub on_file_end-Inv :
      (peer_id id msg_id : Text) (now : ℕ) (f : Inbound)
      → Inv content f
      → Inv content (on_file_end peer_id id msg_id now f)
  on_file_end-Inv peer_id id msg_id now f h = elim (on_file_end-cases peer_id id msg_id now f h) [
    | inl e ↦ rw e h
    | inr (inl e) ↦ rw e (dropped-Inv id f h)
    | inr (inr (e, there)) ↦ rw e (accept_file-Inv peer_id id msg_id now f h)
  ]
