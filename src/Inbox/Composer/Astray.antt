-- ===== src/Inbox/Composer/Astray.antt =====
-- Edit mode and a change of the chat.
use tele.Prelude.{
  ℕ, ◌≡◌, refl, ap, ◌∙◌, inl, inr, Bool, true, false, none, some, List, [], ◌∷◌, Option-cases,
  ◌===◌,
}
use tele.Bytes.{Text}
use tele.Table.{lookup, put, lookup-delete_self}
use tele.Storage.{Message, Store, is_file_ref, delete_message, edit_message}
use tele.Storage.Rows.{trim}
use tele.Inbox.{edit_out, introduce_out, Page, put_out, on_msg_delete, send_edit, on_send}
use tele.Inbox.Composer.{open_call_view, on_back, cancel_edit, do_delete}

-- One chat after another is opened and left again.
unfoldable pub visit : List Text → Page → Page
unfolding open_call_view on_back
visit [] p = p
visit (id ∷ ids) p = visit ids (on_back (open_call_view id p))

visit-editing :
    (ids : List Text) (p : Page)
    → ((visit ids p).editing ≡ p.editing) × ((visit ids p).store ≡ p.store)
unfolding visit open_call_view on_back
visit-editing [] p = (refl, refl)
visit-editing (id ∷ ids) p = visit-editing ids (on_back (open_call_view id p))

send_in_edit :
    (c id input new_id : Text) (now : ℕ) (ok online : Bool) (p : Page)
    → p.current ≡ some c
    → p.editing ≡ some id
    → (trim input === []) ≡ false
    → on_send new_id now ok online input p ≡ send_edit c id (trim input) p
unfolding on_send
send_in_edit c id input new_id now ok online p here editing full =
    simp (here, full, on_send, editing)

send_found :
    (c id text : Text) (m : Message) (p : Page)
    → lookup id p.store.messages ≡ some m
    → is_file_ref m.body ≡ false
    → send_edit c id text p
      ≡ put_out (edit_out c id text) (
          put_out (introduce_out c) (record p {
            store = record p.store {
              messages = put id (record m { body = text; edited = true }) p.store.messages;
            };
            editing = none;
          }))
unfolding send_edit edit_message
send_found c id text m p found no_ref = rw (found, send_edit, edit_message, no_ref) refl

-- With a message in edit the send button edits it as the chat on screen.
pub on_send-edit :
    (c id input new_id : Text) (now : ℕ) (ok online : Bool) (m : Message) (p : Page)
    → p.current ≡ some c
    → p.editing ≡ some id
    → lookup id p.store.messages ≡ some m
    → is_file_ref m.body ≡ false
    → (trim input === []) ≡ false
    → on_send new_id now ok online input p
      ≡ put_out (edit_out c id (trim input)) (
          put_out (introduce_out c) (record p {
            store = record p.store {
              messages = put id (record m { body = trim input; edited = true }) p.store.messages;
            };
            editing = none;
          }))
on_send-edit c id input new_id now ok online m p here editing found no_ref full =
    send_in_edit c id input new_id now ok online p here editing full
    ∙ send_found c id (trim input) m p found no_ref

send_in_vain :
    (c id input new_id : Text) (now : ℕ) (ok online : Bool) (p : Page)
    → p.current ≡ some c
    → p.editing ≡ some id
    → (trim input === []) ≡ false
    → lookup id p.store.messages ≡ none
    → on_send new_id now ok online input p ≡ cancel_edit p
unfolding send_edit edit_message cancel_edit
send_in_vain c id input new_id now ok online p here editing full gone =
    send_in_edit c id input new_id now ok online p here editing full
    ∙ rw (gone, send_edit, edit_message) refl

pub do_delete-page :
    (all : Bool) (id : Text) (p : Page)
    → let q = do_delete all id p in
      (q.store ≡ delete_message id p.store) × (q.current ≡ p.current) × (q.editing ≡ p.editing)
unfolding do_delete
do_delete-page false id p = elim (Option-cases p.current) [
  | inl e ↦ rw e (refl, e, refl)
  | inr (c, e) ↦ rw e (refl, e, refl)
]
do_delete-page true id p = elim (Option-cases p.current) [
  | inl e ↦ rw e (refl, e, refl)
  | inr (c, e) ↦ rw e (refl, e, refl)
]

pub lookup-delete_message :
    (id : Text) (s : Store) → lookup id (delete_message id s).messages ≡ none
unfolding delete_message
lookup-delete_message id s = elim (Option-cases (lookup id s.messages)) [
  | inl e ↦ rw (e, delete_message) e
  | inr (m, e) ↦ rw (e, delete_message) (lookup-delete_self id s.messages)
]

-- Edit mode is not left when the chat is: after any walk through chats the next text that is sent
-- in the chat of `b` replaces the body of the message that was to be edited, in whichever chat it
-- stands, and goes to `b` as an edit of that message. No new message is stored.
pub edit_astray :
    (ids : List Text) (b id input new_id : Text) (now : ℕ) (ok online : Bool) (m : Message)
    (p : Page)
    → p.editing ≡ some id
    → lookup id p.store.messages ≡ some m
    → is_file_ref m.body ≡ false
    → (trim input === []) ≡ false
    → let p' = open_call_view b (visit ids p) in
      let q = on_send new_id now ok online input p' in
      (q.store ≡ record p.store {
        messages = put id (record m { body = trim input; edited = true }) p.store.messages;
      })
      × (q.outs ≡ edit_out b id (trim input) ∷ introduce_out b ∷ p'.outs)
unfolding open_call_view
edit_astray ids b id input new_id now ok online m p editing found no_ref full =
    let (kept, same) = visit-editing ids p in
    rw
      (
        on_send-edit b id input new_id now ok online m (open_call_view b (visit ids p)) refl
            (kept ∙ editing) (ap (λ s. lookup id s.messages) same ∙ found) no_ref full,
        same,
      )
      (refl, refl)

-- If the message in edit is deleted meanwhile, by its peer or by the user, the next text that is sent
-- is neither stored nor sent.
pub edit_lost :
    (c peer_id id input new_id : Text) (now : ℕ) (ok online all : Bool) (p : Page)
    → p.editing ≡ some id
    → p.current ≡ some c
    → (trim input === []) ≡ false
    → let p1 = on_msg_delete peer_id id p in
      let p2 = do_delete all id p in
      (on_send new_id now ok online input p1 ≡ cancel_edit p1)
      × (on_send new_id now ok online input p2 ≡ cancel_edit p2)
unfolding on_msg_delete
edit_lost c peer_id id input new_id now ok online all p editing here full =
    let gone = lookup-delete_message id p.store in
    let (deleted, same, kept) = do_delete-page all id p in
    (
      send_in_vain c id input new_id now ok online (on_msg_delete peer_id id p) here editing full
          gone,
      send_in_vain c id input new_id now ok online (do_delete all id p) (same ∙ here)
          (kept ∙ editing) full (ap (λ s. lookup id s.messages) deleted ∙ gone),
    )
