-- ===== src/Storage/Lifecycle.antt =====
-- The life of one message: saving and acknowledging (`web/storage.js`).
use tele.Prelude.{
  ℕ, ◌≡◌, refl, ◌∙◌, inl, inr, false, none, some, if◌then◌else◌, Bool-cases, Option-cases,
}
use tele.Bytes.{Text}
use tele.Table.{lookup, lookup-put_self, lookup-delete_self}
use tele.Storage.{Status, sent, delivered, Message, Store, is_final, save_incoming, mark_status}

save_incoming_old :
    (p id b : Text) (t n : ℕ) (s : Store) (m : Message)
    → lookup id s.messages ≡ some m
    → save_incoming p id b t n s ≡ (false, s)
unfolding save_incoming
save_incoming_old p id b t n s m e = rw (e, save_incoming)

save_incoming_stores :
    (p id b : Text) (t n : ℕ) (s : Store)
    → (m : Message) × (lookup id (save_incoming p id b t n s).1.messages ≡ some m)
unfolding save_incoming
save_incoming_stores p id b t n s = elim (Option-cases (lookup id s.messages)) [
  | inl e ↦ rw (e, save_incoming) (_, lookup-put_self id _ s.messages)
  | inr (m, e) ↦ rw (e, save_incoming) (m, e)
]

mark_status_at :
    (id : Text) (st : Status) (m : Message) (s : Store)
    → lookup id s.messages ≡ some m
    → (lookup id (mark_status id st s).messages ≡ some (record m { status = st }))
      × (lookup id (mark_status id st s).outbox
          ≡ (if is_final st then none else lookup id s.outbox))
unfolding mark_status
mark_status_at id st m s e = elim (Bool-cases (is_final st)) [
  | inl f ↦ rw (e, mark_status, f) (lookup-put_self id _ s.messages, lookup-delete_self id s.outbox)
  | inr f ↦ rw (e, mark_status, f) (lookup-put_self id _ s.messages, refl)
]

-- A peer that resends a message finds it stored: whatever the first save did, a second save of the
-- same id returns false and changes nothing.
pub save_incoming_again :
    (p id b : Text) (t n : ℕ) (p' b' : Text) (t' n' : ℕ) (s : Store)
    → let s1 = (save_incoming p id b t n s).1 in save_incoming p' id b' t' n' s1 ≡ (false, s1)
save_incoming_again p id b t n p' b' t' n' s =
    let (m, e) = save_incoming_stores p id b t n s in save_incoming_old p' id b' t' n' _ m e

-- If `markStatus` writes `delivered` to a stored message and then `sent`, as happens when the
-- acknowledgement is handled before the sender goes on, the message says `sent` and the retry queue
-- holds no entry for it.
pub late_sent_regresses :
    (id : Text) (m : Message) (s : Store)
    → lookup id s.messages ≡ some m
    → let s' = mark_status id sent (mark_status id delivered s) in
      (lookup id s'.messages ≡ some (record m { status = sent })) × (lookup id s'.outbox ≡ none)
late_sent_regresses id m s e =
    let (msg, box) = mark_status_at id delivered m s e in
    let (msg', box') =
      mark_status_at id sent (record m { status = delivered }) (mark_status id delivered s) msg in
    (msg', box' ∙ box)
