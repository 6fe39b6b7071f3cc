-- ===== src/Inbox.antt =====
-- The handlers of messages in `web/app.js`: the send button, the callbacks onText, onDelivered,
-- onRead, onMsgDelete and onMsgEdit, and the delivery watchdog. A write of the database is atomic, and
-- so is a handler; an id of a peer is its hex text.

pub mod Watchdog
pub mod Edits
pub mod Blocked
pub mod Delivery
pub mod Composer
pub mod Tests
use tele.Prelude.{
  ℕ, Bool, true, false, not, ◌&&◌, Option, none, some, List, [], ◌∷◌, if◌then◌else◌, ◌===◌,
}
use tele.Bytes.{Text}
use tele.Table.{Table, lookup, put, delete}
use tele.Storage.{
  sent, delivered, read, Store, save_outgoing, save_incoming, mark_status, delete_message,
  edit_message,
}
use tele.Storage.Rows.{trim}
use tele.Chat.{Counters, bump}
use tele.Keys.{Ban}
use tele.Book.{is_banned}

-- A call of a send method of the client, with the peer, or a task that the page starts.
pub data Out : Type 0 where
  text_out edit_out : Text → Text → Text → Out
  delivery_ack_out read_ack_out delete_out : Text → Text → Out
  introduce_out wake_out : Text → Out
  mailbox_out : Text → Text → Text → Out

-- An entry of pendingDelivery; `timer` says whether a timeout is set.
pub record Watch : Type 0 where
  pub peer_id : Text
  pub text : Text
  pub retried : Bool
  pub timer : Bool

pub record Page : Type 0 where
  pub store : Store
  -- chatsPersistEnabled()
  pub persists : Bool
  pub blacklist : List Ban
  -- currentPeerId
  pub current : Option Text
  -- editingMsgId
  pub editing : Option Text
  pub unread : Counters
  pub read_acked : List Text
  pub pending_delivery : Table Watch
  -- the newest first
  pub outs : List Out

abbrev pub put_out : Out → Page → Page
put_out o p = record p { outs = o ∷ p.outs }

abbrev pub is_current : Text → Option Text → Bool
is_current id none = false
is_current id (some c) = c === id

-- The part of onText for a new message. The rows on screen are output.
unfoldable pub show_text : Text → Text → Page → Page
unfolding bump
show_text peer_id msg_id p =
    if is_current peer_id p.current
    then put_out (read_ack_out peer_id msg_id) (record p { read_acked = msg_id ∷ p.read_acked })
    else record p { unread = bump peer_id p.unread }

-- onText
unfoldable pub on_text : Text → Text → Text → ℕ → Page → Page
unfolding is_banned save_incoming show_text
on_text peer_id msg_id text now p =
    let (fresh, store) = save_incoming peer_id msg_id text now now p.store in
    let is_new = if p.persists then fresh else true in
    let p' =
      put_out (delivery_ack_out peer_id msg_id)
        (record p { store = if p.persists then store else p.store }) in
    if is_banned peer_id p.blacklist then p else if is_new then show_text peer_id msg_id p' else p'

-- onDelivered
unfoldable pub on_delivered : Text → Text → Page → Page
unfolding mark_status
on_delivered peer_id msg_id p = record p {
  pending_delivery = delete msg_id p.pending_delivery;
  store = mark_status msg_id delivered p.store;
}

-- onRead
unfoldable pub on_read : Text → Text → Page → Page
unfolding mark_status
on_read peer_id msg_id p = record p { store = mark_status msg_id read p.store }

-- onMsgDelete
unfoldable pub on_msg_delete : Text → Text → Page → Page
unfolding delete_message
on_msg_delete peer_id msg_id p = record p { store = delete_message msg_id p.store }

-- onMsgEdit
unfoldable pub on_msg_edit : Text → Text → Text → Page → Page
unfolding edit_message
on_msg_edit peer_id msg_id text p = record p { store = (edit_message msg_id text p.store).1 }

-- The branch of the send button in edit mode, which ends in cancelEdit.
unfoldable pub send_edit : Text → Text → Text → Page → Page
unfolding edit_message
send_edit peer_id id text p =
    let (ok, store) = edit_message id text p.store in
    let p' = record p { store = store; editing = none } in
    if ok then put_out (edit_out peer_id id text) (put_out (introduce_out peer_id) p') else p'

-- The branch of the send button for a new message. `id` is that of saveOutgoing or of
-- randomUUID, `ok` what sendText returns, and `online` the presence of the peer.
unfoldable pub send_new : Text → Text → ℕ → Bool → Bool → Text → Page → Page
unfolding save_outgoing mark_status put
send_new id text now ok online peer_id p =
    let saved = if p.persists then save_outgoing id now peer_id text p.store else p.store in
    let w : Watch = record { peer_id = peer_id; text = text; retried = false; timer = true } in
    let p1 = put_out (text_out peer_id id text) (record p {
      store = if ok && p.persists then mark_status id sent saved else saved;
      pending_delivery = if ok then put id w p.pending_delivery else p.pending_delivery;
    }) in
    let p2 = if online then p1 else put_out (wake_out peer_id) p1 in
    if ok && p.persists && not online then put_out (mailbox_out peer_id id text) p2 else p2

-- The send button with a text in the input.
unfoldable pub on_send : Text → ℕ → Bool → Bool → Text → Page → Page
unfolding trim send_edit send_new
on_send id now ok online input p = elim p.current [
  | none ↦ p
  | some peer_id ↦
      let text = trim input in
      if text === [] then p else elim p.editing [
        | some e ↦ send_edit peer_id e text p
        | none ↦ send_new id text now ok online peer_id p
      ]
]

-- deliveryWatchdog when its timeout fires; `connected` is isConnected().
unfoldable pub delivery_watchdog : Bool → Text → Page → Page
unfolding lookup put delete
delivery_watchdog connected msg_id p = elim (lookup msg_id p.pending_delivery) [
  | none ↦ p
  | some w ↦
      if not connected
      then record p {
        pending_delivery = put msg_id (record w { timer = false }) p.pending_delivery;
      }
      else if w.retried
      then record p { pending_delivery = delete msg_id p.pending_delivery }
      else put_out (text_out w.peer_id msg_id w.text) (
          put_out (introduce_out w.peer_id) (record p {
            pending_delivery =
                put msg_id (record w { retried = true; timer = true }) p.pending_delivery;
          }))
]
