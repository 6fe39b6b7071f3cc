-- ===== src/Inbox/Tests.antt =====
-- The handlers of messages on small pages.
use tele.Prelude.{
  ◌+◌, ◌≤◌, ◌≡◌, refl, inl, true, false, none, some, List, [], ◌∷◌, arith, ◌===◌, codes, All,
}
use tele.Bytes.{Text}
use tele.Table.{text_lt, lookup, put, delete}
use tele.Storage.{
  outgoing, pending, sent, Message, OutboxEntry, Store, empty_store, is_file_ref, save_outgoing,
  save_incoming, mark_status, bump_attempt, edit_message, get_file,
}
use tele.Storage.Rows.{Row, insert, sort, join_queue, pending_for}
use tele.Book.{is_banned}
use tele.Inbox.{
  text_out, Page, show_text, on_text, on_delivered, on_msg_delete, on_msg_edit, send_new,
  delivery_watchdog,
}
use tele.Inbox.Watchdog.{times_sent, Event, fired, run, resent_at_most_once, fires, watch_ends}
use tele.Inbox.Edits.{anyone_edits}
use tele.Inbox.Blocked.{resend, queue_blocked}
use tele.Inbox.Delivery.{
  Pair, fresh_page, start, In, taken, flushed, Step, sends, arrives, acknowledges, Reachable, begin,
  next,
}
use tele.Inbox.Delivery.Retry.{retry_delivers}
use tele.Inbox.Delivery.Settled.{settled}
use tele.Inbox.Delivery.Bodies.{body_at}
use tele.Inbox.Delivery.Refinement.{SpecStep, texts_of, log_of, delivery_refines, done_has_arrived}

abbrev ann : Text
ann = codes "a1"

abbrev bob : Text
bob = codes "b2"

abbrev hi : Text
hi = codes "hi"

abbrev m1 : Text
m1 = codes "m1"

-- A text goes out.
abbrev posted : Pair
posted = record start { from = send_new m1 hi 100 true true bob fresh_page }

-- It arrives.
abbrev arrived_once : Pair
arrived_once = record posted { to = on_text ann m1 hi 101 fresh_page }

-- The acknowledgement gets back.
abbrev confirmed : Pair
confirmed = record arrived_once { from = on_delivered bob m1 posted.from }

posted_step : Step ann bob start posted
posted_step = sends m1 hi 100 true true start (unfold lookup in refl)

arrived_step : Step ann bob posted arrived_once
arrived_step = arrives m1 hi 101 posted (unfold send_new in inl refl)

confirmed_step : Step ann bob arrived_once confirmed
confirmed_step =
    acknowledges m1 arrived_once
      (unfold on_text is_banned save_incoming lookup show_text in inl refl)

posted-Reachable : Reachable ann bob posted
posted-Reachable = next start posted begin posted_step

arrived-Reachable : Reachable ann bob arrived_once
arrived-Reachable = next posted arrived_once posted-Reachable arrived_step

confirmed-Reachable : Reachable ann bob confirmed
confirmed-Reachable = next arrived_once confirmed arrived-Reachable confirmed_step

delivery_refines_example :
    SpecStep
      (texts_of posted.from)
      (log_of ann posted.to)
      (texts_of arrived_once.from)
      (log_of ann arrived_once.to)
delivery_refines_example =
    delivery_refines ann bob posted arrived_once posted-Reachable arrived_step

done_has_arrived_example : body_at m1 confirmed.to.store ≡ some hi
done_has_arrived_example =
    done_has_arrived ann bob confirmed m1 hi confirmed-Reachable
      (unfold on_delivered send_new save_outgoing mark_status lookup put delete ◌===◌ in refl)
      (unfold on_delivered send_new save_outgoing mark_status lookup put delete ◌===◌ in refl)

-- Two timeouts with the connection up, and one more.
abbrev timeouts : List Event
timeouts = fired true m1 ∷ fired false m1 ∷ fired true m1 ∷ fired true m1 ∷ []

sent_twice : times_sent m1 (run timeouts posted.from).outs ≡ 2
unfolding times_sent run delivery_watchdog send_new lookup put delete ◌===◌
sent_twice = refl

resent_at_most_once_example :
    let q = run timeouts posted.from in
    let r = run timeouts (on_delivered bob m1 q) in
    (times_sent m1 q.outs ≤ times_sent m1 posted.from.outs + 1)
    × (times_sent m1 r.outs ≤ times_sent m1 q.outs)
resent_at_most_once_example = resent_at_most_once timeouts timeouts bob m1 posted.from

watch_ends_example : lookup m1 (run timeouts posted.from).pending_delivery ≡ none
watch_ends_example = watch_ends timeouts m1 posted.from (unfold fires ◌===◌ in omega arith)

abbrev hi_message : Message
hi_message = record {
  peer_id = bob;
  dir = outgoing;
  body = hi;
  ts = 100;
  seq = 1;
  status = sent;
  edited = false;
}

-- The entry of the message of `posted` in the queue.
abbrev hi_entry : OutboxEntry
hi_entry = record { attempts = 0; last_try_ts = 0; mailbox_nonce = none }

-- The text waits for Bob; peer c3 is banned.
abbrev with_ban_of_c3 : Page
with_ban_of_c3 = record posted.from {
  blacklist = record { id = codes "c3"; qr = none; label = none } ∷ [];
}

abbrev c3_edited : Page
c3_edited = on_msg_edit (codes "c3") m1 (codes "no") with_ban_of_c3

c3_taken : All (λ r. taken (λ k. true) c3_edited.store r.0 ≡ true) (pending_for bob c3_edited.store)
unfolding on_msg_edit edit_message taken pending_for sort insert join_queue send_new save_outgoing
    mark_status put lookup ◌===◌ text_lt is_file_ref
c3_taken = (refl, tt)

anyone_edits_example :
    let d = on_msg_delete (codes "c3") m1 with_ban_of_c3 in
    (on_text (codes "c3") m1 (codes "no") 200 with_ban_of_c3 ≡ with_ban_of_c3)
    × In (text_out bob m1 (codes "no")) (flushed ann bob (λ k. true) 200 c3_edited).outs
    × (lookup m1 d.store.messages ≡ none)
    × (lookup m1 d.store.outbox ≡ none)
anyone_edits_example =
    anyone_edits (codes "c3") ann bob m1 (codes "no") hi_message hi_entry 200 with_ban_of_c3
      (unfold is_banned ◌===◌ in refl)
      (unfold send_new save_outgoing mark_status lookup put ◌===◌ in refl)
      (unfold send_new save_outgoing mark_status lookup put ◌===◌ in refl) (unfold ◌===◌ in refl)
      (unfold is_file_ref in refl) (unfold is_file_ref in refl) c3_taken

-- A typed text that begins with a percent sign, and one behind it.
abbrev percent : Store
percent = save_outgoing (codes "m2") 101 bob hi (save_outgoing m1 100 bob (codes "%ok") empty_store)

abbrev percent_rows : List Row
percent_rows = pending_for bob percent

percent_first :
    percent_rows
    ≡ (m1, record hi_message { body = codes "%ok"; status = pending })
      ∷ (codes "m2", record hi_message { ts = 101; seq = 2; status = pending })
      ∷ []
unfolding pending_for sort insert join_queue save_outgoing put lookup ◌===◌ text_lt
percent_first = refl

queue_blocked_example : resend true 200 bob percent ≡ ([], bump_attempt m1 200 percent)
queue_blocked_example =
    queue_blocked 200 bob (m1, record hi_message { body = codes "%ok"; status = pending })
      ((codes "m2", record hi_message { ts = 101; seq = 2; status = pending }) ∷ []) percent
      percent_first (unfold is_file_ref in refl) (unfold get_file save_outgoing lookup in refl)

posted_taken :
    All (λ r. taken (λ k. true) posted.from.store r.0 ≡ true) (pending_for bob posted.from.store)
unfolding taken pending_for sort insert join_queue send_new save_outgoing mark_status put lookup
    ◌===◌ text_lt is_file_ref
posted_taken = (refl, tt)

retry_delivers_example :
    let w1 = record posted { from = flushed ann bob (λ k. true) 200 posted.from } in
    let w2 = record w1 { to = on_text ann m1 hi 200 w1.to } in
    let w3 = record w2 { from = on_delivered bob m1 w2.from } in
    Reachable ann bob w3 × (settled m1 w3.from.store ≡ true) × (body_at m1 w3.to.store ≡ some hi)
retry_delivers_example =
    retry_delivers ann bob posted m1 hi_message hi_entry 200 posted-Reachable
      (unfold send_new save_outgoing mark_status lookup put ◌===◌ in refl)
      (unfold send_new save_outgoing mark_status lookup put ◌===◌ in refl) (unfold ◌===◌ in refl)
      (unfold is_file_ref in refl) posted_taken
