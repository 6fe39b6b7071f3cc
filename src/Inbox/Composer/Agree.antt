-- ===== src/Inbox/Composer/Agree.antt =====
-- An edit or a deletion that reaches the peer, by the composer of one page and the handlers of another.
use tele.Inbox.Composer.Astray.{on_send-edit, do_delete-page, lookup-delete_message}
use tele.Prelude.{
  ℕ, ◌≡◌, refl, ap, ◌∙◌, inl, inr, Bool, true, false, none, some, [], ◌∷◌, arith, if◌then◌else◌,
  Option-cases, ◌===◌,
}
use tele.Bytes.{Text}
use tele.Table.{lookup, put, lookup-put, lookup-delete, lookup-put_self}
use tele.Storage.Rows.{trim}
use tele.Storage.{Message, Store, is_file_ref, delete_message, edit_message}
use tele.Inbox.{edit_out, delete_out, introduce_out, Page, on_msg_delete, on_msg_edit, on_send}
use tele.Inbox.Delivery.Bodies.{body_at}
use tele.Inbox.Composer.{enter_edit_mode, do_delete}

enter-page :
    (id : Text) (p : Page)
    → let q = enter_edit_mode id p in (q.store ≡ p.store) × (q.current ≡ p.current)
unfolding enter_edit_mode
enter-page id p = ground arith

-- The text of each message after one is replaced.
put_body :
    (id text j : Text) (m : Message) (s : Store)
    → let s' = record s {
      messages = put id (record m { body = text; edited = true }) s.messages;
    } in
      body_at j s' ≡ (if id === j then some text else body_at j s)
put_body id text j m s = rw (lookup-put id j _ s.messages) (ground arith)

put_body_self :
    (id text : Text) (m : Message) (s : Store)
    → let s' = record s {
      messages = put id (record m { body = text; edited = true }) s.messages;
    } in
      body_at id s' ≡ some text
put_body_self id text m s =
    rw (lookup-put_self id (record m { body = text; edited = true }) s.messages) refl

edit_message-found :
    (id text : Text) (m : Message) (s : Store)
    → lookup id s.messages ≡ some m
    → is_file_ref m.body ≡ false
    → edit_message id text s
      ≡ (true, record s { messages = put id (record m { body = text; edited = true }) s.messages })
unfolding edit_message
edit_message-found id text m s found no_ref = rw (found, edit_message, no_ref) refl

-- A message that is edited in its chat, and whose edit arrives at a page that has a text under its
-- id, ends with the new text on both; on neither does the text of any other message change, and edit
-- mode is left.
pub edits_agree :
    (a b id j input new_id : Text) (now : ℕ) (ok online : Bool) (m m' : Message) (p q : Page)
    → p.current ≡ some b
    → (enter_edit_mode id p).editing ≡ some id
    → lookup id p.store.messages ≡ some m
    → is_file_ref m.body ≡ false
    → lookup id q.store.messages ≡ some m'
    → is_file_ref m'.body ≡ false
    → (trim input === []) ≡ false
    → let p' = on_send new_id now ok online input (enter_edit_mode id p) in
      let q' = on_msg_edit a id (trim input) q in
      (p'.outs ≡ edit_out b id (trim input) ∷ introduce_out b ∷ (enter_edit_mode id p).outs)
      × (p'.editing ≡ none)
      × (body_at id p'.store ≡ some (trim input))
      × (body_at id q'.store ≡ some (trim input))
      × (body_at j p'.store ≡ (if id === j then some (trim input) else body_at j p.store))
      × (body_at j q'.store ≡ (if id === j then some (trim input) else body_at j q.store))
unfolding on_msg_edit
edits_agree a b id j input new_id now ok online m m' p q here entered found no_ref got no_ref'
      full =
    let text = trim input in
    let (same, there) = enter-page id p in
    let e = enter_edit_mode id p in
    rw
      (
        on_send-edit b id input new_id now ok online m e (there ∙ here) entered
            (ap (λ s. lookup id s.messages) same ∙ found) no_ref full,
        ap (λ s. s.1) (edit_message-found id text m' q.store got no_ref'),
        same,
      )
      (
        refl,
        refl,
        put_body_self id text m p.store,
        put_body_self id text m' q.store,
        put_body id text j m p.store,
        put_body id text j m' q.store,
      )

lookup-delete_other :
    (id j : Text) (s : Store)
    → (id === j) ≡ false
    → lookup j (delete_message id s).messages ≡ lookup j s.messages
unfolding delete_message
lookup-delete_other id j s n = elim (Option-cases (lookup id s.messages)) [
  | inl e ↦ rw (e, delete_message) refl
  | inr (m, e) ↦ rw (e, delete_message, lookup-delete id j s.messages, n) refl
]

-- The same for a message that is deleted for everyone: it is gone from both pages, and no
-- other message changes on either.
pub deletes_agree :
    (a b id : Text) (p q : Page)
    → p.current ≡ some b
    → let p' = do_delete true id p in
      let q' = on_msg_delete a id q in
      (p'.outs ≡ delete_out b id ∷ introduce_out b ∷ p.outs)
      × (lookup id p'.store.messages ≡ none)
      × (lookup id q'.store.messages ≡ none)
      × ((j : Text)
          → (id === j) ≡ false
          → (lookup j p'.store.messages ≡ lookup j p.store.messages)
            × (lookup j q'.store.messages ≡ lookup j q.store.messages))
unfolding on_msg_delete do_delete
deletes_agree a b id p q here =
    let (deleted, same, kept) = do_delete-page true id p in
    rw deleted (
      rw (here, do_delete) refl,
      lookup-delete_message id p.store,
      lookup-delete_message id q.store,
      λ j n. (lookup-delete_other id j p.store n, lookup-delete_other id j q.store n),
    )
