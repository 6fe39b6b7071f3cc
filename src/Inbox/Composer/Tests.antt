-- ===== src/Inbox/Composer/Tests.antt =====
-- The composer on small pages.
use tele.Book.{is_banned}
use tele.Prelude.{◌≡◌, refl, true, false, none, some, [], ◌∷◌, if◌then◌else◌, ◌===◌, codes}
use tele.Bytes.{Text}
use tele.Table.{lookup, put, select}
use tele.Storage.{
  incoming, outgoing, sent, received, Message, is_file_ref, save_outgoing, save_incoming,
  mark_status,
}
use tele.Storage.Rows.{insert, sort, history, trim}
use tele.Inbox.{edit_out, introduce_out, Page, show_text, on_text, on_msg_edit, send_new, on_send}
use tele.Inbox.Delivery.{fresh_page}
use tele.Inbox.Delivery.Bodies.{body_at}
use tele.Inbox.Composer.{open_call_view, on_back, find_row, enter_edit_mode}
use tele.Inbox.Composer.Astray.{visit, edit_astray}
use tele.Inbox.Composer.Agree.{edits_agree}

abbrev ann : Text
ann = codes "a1"

abbrev bob : Text
bob = codes "b2"

abbrev hi : Text
hi = codes "hi"

abbrev fixed : Text
fixed = codes "ho "

abbrev m1 : Text
m1 = codes "m1"

-- A text to bob, in his chat, and the page that got it.
abbrev posted : Page
posted = send_new m1 hi 100 true true bob (open_call_view bob fresh_page)

abbrev arrived : Page
arrived = on_text ann m1 hi 101 fresh_page

abbrev in_edit : Page
in_edit = enter_edit_mode m1 posted

abbrev hi_message : Message
hi_message = record {
  peer_id = bob;
  dir = outgoing;
  body = hi;
  ts = 100;
  seq = 1;
  status = sent;
  edited = false;
}

posted_row : lookup m1 posted.store.messages ≡ some hi_message
unfolding open_call_view send_new save_outgoing mark_status lookup put ◌===◌
posted_row = refl

in_edit_m1 : in_edit.editing ≡ some m1
unfolding enter_edit_mode find_row history select sort insert is_file_ref open_call_view send_new
    save_outgoing mark_status lookup put ◌===◌
in_edit_m1 = refl

in_edit_row : lookup m1 in_edit.store.messages ≡ some hi_message
unfolding enter_edit_mode find_row history select sort insert is_file_ref open_call_view send_new
    save_outgoing mark_status lookup put ◌===◌
in_edit_row = refl

in_edit_bob : in_edit.current ≡ some bob
unfolding enter_edit_mode find_row history select sort insert is_file_ref open_call_view send_new
    save_outgoing mark_status lookup put ◌===◌
in_edit_bob = refl

abbrev arrived_message : Message
arrived_message = record {
  peer_id = ann;
  dir = incoming;
  body = hi;
  ts = 101;
  seq = 1;
  status = received;
  edited = false;
}

arrived_row : lookup m1 arrived.store.messages ≡ some arrived_message
unfolding on_text is_banned save_incoming show_text lookup put ◌===◌
arrived_row = refl

fixed_full : (trim fixed === []) ≡ false
unfolding trim ◌===◌
fixed_full = refl

-- The chat with the message in edit is left.
abbrev left : Page
left = on_back in_edit

edit_astray_example :
    let p' = open_call_view ann (visit (ann ∷ bob ∷ []) left) in
    let q = on_send (codes "m2") 200 true true fixed p' in
    (q.store ≡ record left.store {
      messages =
          put m1 (record hi_message { body = trim fixed; edited = true }) left.store.messages;
    })
    × (q.outs ≡ edit_out ann m1 (trim fixed) ∷ introduce_out ann ∷ p'.outs)
edit_astray_example =
    edit_astray (ann ∷ bob ∷ []) ann m1 fixed (codes "m2") 200 true true hi_message left
      (unfold on_back in in_edit_m1) (unfold on_back in in_edit_row) (unfold is_file_ref in refl)
      fixed_full

edits_agree_example :
    let p' = on_send (codes "m2") 200 true true fixed in_edit in
    let q' = on_msg_edit ann m1 (trim fixed) arrived in
    (p'.outs ≡ edit_out bob m1 (trim fixed) ∷ introduce_out bob ∷ in_edit.outs)
    × (p'.editing ≡ none)
    × (body_at m1 p'.store ≡ some (trim fixed))
    × (body_at m1 q'.store ≡ some (trim fixed))
    × (body_at (codes "m3") p'.store
        ≡ (if m1 === codes "m3" then some (trim fixed) else body_at (codes "m3") posted.store))
    × (body_at (codes "m3") q'.store
        ≡ (if m1 === codes "m3" then some (trim fixed) else body_at (codes "m3") arrived.store))
edits_agree_example =
    edits_agree ann bob m1 (codes "m3") fixed (codes "m2") 200 true true hi_message arrived_message
      posted arrived (unfold send_new open_call_view in refl) in_edit_m1 posted_row
      (unfold is_file_ref in refl) arrived_row (unfold is_file_ref in refl) fixed_full
