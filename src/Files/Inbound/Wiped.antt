-- ===== src/Files/Inbound/Wiped.antt =====
-- An offer under the id of a file that is stored already (`web/app.js`).
use tele.Prelude.{◌≡◌, refl, true, false, none, [], ◌∷◌}
use tele.Bytes.{Text}
use tele.Table.{lookup-put_self}
use tele.Storage.{is_file_ref, file_id_of, save_file_meta, get_file}
use tele.Book.{is_banned}
use tele.Inbox.Blocked.{replay_file_send, no_replay}
use tele.Files.Inbound.{Offer, Inbound, row_of, on_file_offer}
use tele.Files.Inbound.Stored.{file_bytes}

-- With saved chats, whoever is not banned takes the bytes of any stored file away by an offer under its
-- id, also those of a file that the user has sent; the retry of that file then ends at once and sends
-- nothing.
pub offer_erases :
    (peer_id id msg_id : Text) (o : Offer) (f : Inbound)
    → is_banned peer_id f.page.blacklist ≡ false
    → f.page.persists ≡ true
    → let g = on_file_offer peer_id id o f in
      (file_bytes id g ≡ none)
      × (replay_file_send true (λ i. true) true msg_id (b'%' ∷ id) g.page.store ≡ ([], false))
unfolding on_file_offer save_file_meta file_id_of is_file_ref get_file
offer_erases peer_id id msg_id o f b p =
    let row = record (row_of o) { blob = none } in
    let there = lookup-put_self id row f.page.store.files in
    rw (b, on_file_offer, p)
      (
        rw there refl,
        no_replay msg_id (b'%' ∷ id) id (save_file_meta id (row_of o) f.page.store) refl
            (rw there refl),
      )
