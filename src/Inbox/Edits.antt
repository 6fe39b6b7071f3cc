-- ===== src/Inbox/Edits.antt =====
-- Who may edit and delete a message: onMsgEdit and onMsgDelete of `web/app.js`, and what the retry
-- queue then sends.
use tele.Prelude.{ℕ, ◌≡◌, refl, ap, ◌∙◌, true, false, none, some, All}
use tele.Bytes.{Text}
use tele.Table.{lookup, lookup-put_self, lookup-delete_self}
use tele.Storage.{Message, OutboxEntry, is_file_ref, delete_message, edit_message}
use tele.Storage.Rows.{is_pending_for, pending_for}
use tele.Storage.Windows.{pending_for_complete}
use tele.Book.{is_banned}
use tele.Inbox.{text_out, Page, on_text, on_msg_delete, on_msg_edit}
use tele.Inbox.Delivery.{In, taken, resent, flushed}
use tele.Inbox.Delivery.Retry.{In-append, resent_has}

edited_row :
    (peer_id id text : Text) (m : Message) (p : Page)
    → lookup id p.store.messages ≡ some m
    → is_file_ref m.body ≡ false
    → let e = on_msg_edit peer_id id text p in
      (lookup id e.store.messages ≡ some (record m { body = text; edited = true }))
      × (e.store.outbox ≡ p.store.outbox)
unfolding on_msg_edit edit_message
edited_row peer_id id text m p e f =
    rw (e, edit_message, f) (lookup-put_self id _ p.store.messages, refl)

deleted_row :
    (peer_id id : Text) (m : Message) (p : Page)
    → lookup id p.store.messages ≡ some m
    → let d = on_msg_delete peer_id id p in
      (lookup id d.store.messages ≡ none) × (lookup id d.store.outbox ≡ none)
unfolding on_msg_delete delete_message
deleted_row peer_id id m p e =
    rw (e, delete_message)
      (lookup-delete_self id p.store.messages, lookup-delete_self id p.store.outbox)

-- A banned peer, whose texts the page drops, changes by a MSG_EDIT what the user wrote, whoever it is
-- for: if it names the id of a queued text, and neither that text nor its own begins with `%`, the next
-- retry on an open connection sends the peer of the queue the words of the banned one, if no message
-- of the queue fails there. By a MSG_DELETE it takes the text off the page and out of the queue.
pub anyone_edits :
    (peer_id from_id to_id id text : Text) (m : Message) (q : OutboxEntry) (now : ℕ) (p : Page)
    → is_banned peer_id p.blacklist ≡ true
    → lookup id p.store.messages ≡ some m
    → lookup id p.store.outbox ≡ some q
    → is_pending_for to_id (some m) ≡ true
    → is_file_ref m.body ≡ false
    → is_file_ref text ≡ false
    → All
        (λ r. taken (λ k. true) (on_msg_edit peer_id id text p).store r.0 ≡ true)
        (pending_for to_id (on_msg_edit peer_id id text p).store)
    → let e = on_msg_edit peer_id id text p in
      let d = on_msg_delete peer_id id p in
      (on_text peer_id id text now p ≡ p)
      × In (text_out to_id id text) (flushed from_id to_id (λ k. true) now e).outs
      × (lookup id d.store.messages ≡ none)
      × (lookup id d.store.outbox ≡ none)
anyone_edits peer_id from_id to_id id text m q now p b e o w f g t =
    let s = (on_msg_edit peer_id id text p).store in
    let m' = record m { body = text; edited = true } in
    let (row, same) = edited_row peer_id id text m p e f in
    let queued = pending_for_complete to_id id q m' s (ap (lookup id) same ∙ o) row w in
    let out =
      resent_has from_id to_id (taken (λ k. true) s) id m' (pending_for to_id s) t queued g in
    (
      unfold on_text in rw (b, on_text) refl,
      unfold flushed in
          In-append (text_out to_id id text)
            (resent from_id to_id (taken (λ k. true) s) (pending_for to_id s))
            (on_msg_edit peer_id id text p).outs out,
      (deleted_row peer_id id m p e).0,
      (deleted_row peer_id id m p e).1,
    )
