-- ===== src/Inbox/Composer.antt =====
-- The composer and the chat on screen in `web/app.js`: openCallView, the back button, enterEditMode,
-- cancelEdit, and the dialogs that delete a message and clear a chat. The text in the input is an
-- argument of the send button; searching is output.
pub mod Astray
pub mod Agree
pub mod Tests
use tele.Prelude.{Bool, true, Option, none, some, List, [], ◌∷◌, ◌++◌, if◌then◌else◌, ◌===◌}
use tele.Bytes.{Text}
use tele.Storage.{Message, is_file_ref, delete_message, clear_history}
use tele.Storage.Rows.{Row, history}
use tele.Chat.{clear, Acks, mark_history_read}
use tele.Inbox.{Out, read_ack_out, delete_out, introduce_out, Page, put_out}

-- The READ_ACK frames to a peer.
abbrev pub read_acks : Text → List Text → List Out
read_acks peer_id [] = []
read_acks peer_id (id ∷ ids) = read_ack_out peer_id id ∷ read_acks peer_id ids

-- openCallView, without the counter of missed calls
unfoldable pub open_call_view : Text → Page → Page
unfolding mark_history_read clear
open_call_view id_hex p =
    let acks : Acks = record { read_acked = p.read_acked; sent_ids = [] } in
    let marked = mark_history_read true id_hex p.store acks in
    record p {
      current = some id_hex;
      read_acked = marked.read_acked;
      unread = clear id_hex p.unread;
      outs = read_acks id_hex marked.sent_ids ++ p.outs;
    }

-- The back button of the chat.
unfoldable pub on_back : Page → Page
on_back p = record p { current = none }

-- `rows.find((r) => r.id === msgId)`
unfoldable pub find_row : Text → List Row → Option Message
find_row msg_id [] = none
find_row msg_id (r ∷ rows) = if r.0 === msg_id then some r.1 else find_row msg_id rows

-- enterEditMode
unfoldable pub enter_edit_mode : Text → Page → Page
unfolding find_row history is_file_ref
enter_edit_mode msg_id p = elim p.current [
  | none ↦ p
  | some peer_id ↦ elim (find_row msg_id (history peer_id p.store)) [
    | none ↦ p
    | some m ↦ if is_file_ref m.body then p else record p { editing = some msg_id }
  ]
]

-- cancelEdit
unfoldable pub cancel_edit : Page → Page
cancel_edit p = record p { editing = none }

-- doDelete of openDeleteDialog
unfoldable pub do_delete : Bool → Text → Page → Page
unfolding delete_message
do_delete for_everyone msg_id p =
    let p' : Page = elim p.current [
      | none ↦ p
      | some peer_id ↦
          if for_everyone
          then put_out (delete_out peer_id msg_id) (put_out (introduce_out peer_id) p)
          else p
    ] in
    record p' { store = delete_message msg_id p'.store }

-- The button of the dialog that clears the chat.
unfoldable pub clear_chat : Page → Page
unfolding clear_history cancel_edit
clear_chat p = elim p.current [
  | none ↦ p
  | some peer_id ↦ cancel_edit (record p { store = (clear_history peer_id p.store).1 })
]
