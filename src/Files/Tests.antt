-- ===== src/Files/Tests.antt =====
-- A file of five bytes in chunks of two.
use tele.Bytes.{Text, Bytes, is_space}
use tele.Storage.Rows.{trim_start, trim}
use tele.Files.Names.{sanitize_file_name}
use tele.Files.Names.Dots.{IsSafe, sanitize_file_name-IsSafe, dots_slip}
use tele.Prelude.{
  ℕ, ◌≡◌, refl, ◌≢◌, ◌⊎◌, true, false, none, some, List, [], ◌∷◌, ◌++◌, arith, ◌===◌, codes, length,
  All,
}
use tele.Files.{
  total_chunks, chunk_at, set_at, on_chunk, on_chunks, got_bytes, has_hole, blob_of, reassemble,
}
use tele.Table.{lookup, put, delete}
use tele.Storage.{save_incoming, save_file_meta, save_file_blob}
use tele.Book.{is_banned}
use tele.Inbox.{delivery_ack_out, Page, show_text, on_text}
use tele.Inbox.Delivery.{fresh_page, In}
use tele.Inbox.Blocked.{replay_file_send}
use tele.Files.Inbound.{
  Offer, Frame, file_offer, file_chunk, file_end, message, Inbound, thumb_of, on_file_offer,
  on_file_chunk, meta_of, accept_file, on_file_end, on_frame, on_frames,
}
use tele.Files.Inbound.Honest.{is_there, AreSent, Inv}
use tele.Files.Inbound.Stored.{file_bytes, stored_is_sent, acked_is_stored}
use tele.Files.Inbound.Replay.{offer_of, arriving}
use tele.Files.Outgoing.{LocalFile, file_row, send_file}
use tele.Files.Outgoing.Arrival.{sent_arrives}

abbrev five : Bytes
five = 1 ∷ 2 ∷ 3 ∷ 4 ∷ 5 ∷ []

-- The chunks out of order, one of them twice.
abbrev jumbled : List (ℕ × Bytes)
jumbled = (2, 5 ∷ []) ∷ (0, 1 ∷ 2 ∷ []) ∷ (2, 5 ∷ []) ∷ (1, 3 ∷ 4 ∷ []) ∷ []

jumbled_accepted : reassemble (length five) (on_chunks jumbled []) ≡ some five
unfolding reassemble on_chunks on_chunk set_at got_bytes has_hole blob_of
jumbled_accepted = refl

-- Every file of Ann has these five bytes.
abbrev fives : Text → Bytes
fives id = five

abbrev ann : Text
ann = codes "a1"

abbrev bo : Text
bo = codes "b0"

abbrev photo : Text
photo = codes "f"

abbrev five_offer : Offer
five_offer = record { mime = []; name = codes "x"; size = 5; thumb_b64 = none }

-- An offer, then a chunk twice, with a text between them.
abbrev begun : List (Text × ℕ × Frame)
begun =
    (ann, 1, file_offer photo five_offer)
    ∷ (ann, 2, file_chunk photo 0 five)
    ∷ (ann, 3, message (codes "t") (codes "hi"))
    ∷ (ann, 4, file_chunk photo 0 five)
    ∷ []

begun-AreSent : AreSent fives begun
unfolding chunk_at total_chunks
begun-AreSent = (refl, ((refl, ground arith), (tt, ((refl, ground arith), tt))))

abbrev nothing_yet : Inbound
nothing_yet = record { page = fresh_page; chunks = []; metas = [] }

nothing_yet-Inv : Inv fives nothing_yet
unfolding lookup
nothing_yet-Inv = record {
  persists = refl;
  buckets = λ k. tt;
  metas = λ k. tt;
  rows = λ k. tt;
  kept = λ k e. e;
}

-- The whole file, acknowledged.
abbrev done : List (Text × ℕ × Frame)
done = begun ++ ((ann, 5, file_end photo (codes "m")) ∷ [])

done-AreSent : AreSent fives done
unfolding chunk_at total_chunks
done-AreSent = (refl, ((refl, ground arith), (tt, ((refl, ground arith), (tt, tt)))))

done_stored : file_bytes photo (on_frames done nothing_yet) ≡ some five
unfolding on_frames on_frame on_file_offer on_file_chunk on_file_end accept_file meta_of is_banned
    lookup put delete ◌===◌ save_file_meta save_file_blob save_incoming on_chunk set_at reassemble
    got_bytes has_hole blob_of thumb_of show_text on_text
done_stored = refl

stored_is_sent_example : five ≡ five
stored_is_sent_example =
    stored_is_sent fives done nothing_yet done-AreSent nothing_yet-Inv photo five done_stored

acked_is_stored_example :
    let g = on_frames begun nothing_yet in
    let g' = on_file_end ann photo (codes "m") 5 g in
    (g'.page.outs ≡ g.page.outs)
    ⊎ ((file_bytes photo g' ≡ some five)
        × (is_there (lookup (codes "m") g'.page.store.messages) ≡ true))
acked_is_stored_example =
    acked_is_stored fives begun nothing_yet ann photo (codes "m") 5 refl begun-AreSent
      nothing_yet-Inv

abbrev five_file : LocalFile
five_file = record { name = codes "x"; type = []; bytes = five }

-- Ann sends to Bo, and the socket is down.
abbrev ann_page : Page
ann_page = record fresh_page { current = some bo }

sent_arrives_example :
    let s =
      (send_file photo
        (codes "m")
        9
        five_file
        none
        false
        (λ k. false)
        false
        true
        ann_page).1.store in
    let sending = replay_file_send true (λ k. true) true (codes "m") (b'%' ∷ photo) s in
    let o = offer_of (record (file_row five_file none) { blob = some five }) in
    let g = on_frames (arriving ann 11 o sending.0) (on_frames begun nothing_yet) in
    (is_there (lookup (codes "m") s.outbox) ≡ true)
    × (sending.1 ≡ true)
    × (file_bytes photo g ≡ some five)
    × (is_there (lookup (codes "m") g.page.store.messages) ≡ true)
    × In (delivery_ack_out ann (codes "m")) g.page.outs
sent_arrives_example =
    sent_arrives fives photo (codes "m") ann bo 9 11 five_file none false (λ k. false) false true
      ann_page begun nothing_yet refl refl refl (unfold ◌===◌ in refl)
      (unfold total_chunks in ground arith) begun-AreSent nothing_yet-Inv
      (unfold on_frames on_frame on_file_offer on_file_chunk is_banned on_text in refl)

sanitize_file_name-IsSafe_example :
    (sanitize_file_name (codes "../a?") ≢ []) × All IsSafe (sanitize_file_name (codes "../a?"))
sanitize_file_name-IsSafe_example = sanitize_file_name-IsSafe (codes "../a?")

dots_slip_example : sanitize_file_name (codes " ..") ≡ codes ".."
dots_slip_example =
    dots_slip (codes "..") (refl, (refl, tt)) (unfold trim trim_start is_space in refl)
      (λ e. absurd (ground (arith, e)))
