-- ===== src/Storage/Outbox.antt =====
-- The retry queue of `web/storage.js` and its tie to the messages, kept by every operation.
use tele.Prelude.{
  ℕ, ◌≡◌, inl, inr, false, Option, none, some, List, [], ◌∷◌, arith, Bool-cases, Option-cases,
  ===_iff,
}
use tele.Bytes.{Text, Bytes}
use tele.Table.{Table, lookup, delete, select, table_laws}
use tele.Storage.{
  outgoing, Status, Message, OutboxEntry, FileRow, Store, empty_store, is_final, is_file_ref,
  save_outgoing, save_incoming, mark_status, bump_attempt, set_mailbox_nonce, delete_message,
  edit_message, clear_rows, of_peer, clear_history, wipe, save_file_meta, save_file_blob,
}

-- What the row of a queued id must be.
abbrev pub IsQueued : Option OutboxEntry → Option Message → Type 0
IsQueued none m = Unit {0}
IsQueued (some q) none = ⊥
IsQueued (some q) (some m) = (m.dir ≡ outgoing) × (is_final m.status ≡ false)

pub record Inv (s : Store) : Type 0 where
  pub at : (k : Text) → IsQueued (lookup k s.outbox) (lookup k s.messages)

empty-Inv : Inv empty_store
unfolding lookup
empty-Inv = record { at = λ k. tt }

save_outgoing-Inv :
    (id : Text) (now : ℕ) (peer_id body : Text) (s : Store)
    → Inv s
    → Inv (save_outgoing id now peer_id body s)
unfolding save_outgoing
save_outgoing-Inv id now peer_id body s h = record {
  at = λ k. simp table_laws (ground (arith, h.at k));
}

save_incoming-Inv :
    (peer_id id body : Text) (ts now : ℕ) (s : Store)
    → Inv s
    → Inv (save_incoming peer_id id body ts now s).1
unfolding save_incoming
save_incoming-Inv peer_id id body ts now s h = elim (Option-cases (lookup id s.messages)) [
  | inl e ↦
      rw (e, save_incoming)
        (record { at = λ k. simp table_laws (ground (arith, h.at k, ===_iff id k, e)) })
  | inr (m, e) ↦ rw (e, save_incoming) h
]

mark_status-Inv : (id : Text) (st : Status) (s : Store) → Inv s → Inv (mark_status id st s)
unfolding mark_status
mark_status-Inv id st s h = elim (Option-cases (lookup id s.messages)) [
  | inl e ↦ rw (e, mark_status) h
  | inr (m, e) ↦ elim (Bool-cases (is_final st)) [
    | inl f ↦
        rw (e, mark_status, f)
          (record { at = λ k. simp table_laws (ground (arith, h.at k, ===_iff id k, e)) })
    | inr f ↦
        rw (e, mark_status, f)
          (record { at = λ k. simp table_laws (ground (arith, h.at k, ===_iff id k, e, f)) })
  ]
]

bump_attempt-Inv : (id : Text) (now : ℕ) (s : Store) → Inv s → Inv (bump_attempt id now s)
unfolding bump_attempt
bump_attempt-Inv id now s h = elim (Option-cases (lookup id s.outbox)) [
  | inl e ↦ rw (e, bump_attempt) h
  | inr (q, e) ↦
      rw (e, bump_attempt)
        (record { at = λ k. simp table_laws (ground (arith, h.at k, ===_iff id k, e)) })
]

set_mailbox_nonce-Inv :
    (id : Text) (nonce : Bytes) (s : Store) → Inv s → Inv (set_mailbox_nonce id nonce s)
unfolding set_mailbox_nonce
set_mailbox_nonce-Inv id nonce s h = elim (Option-cases (lookup id s.outbox)) [
  | inl e ↦ rw (e, set_mailbox_nonce) h
  | inr (q, e) ↦
      rw (e, set_mailbox_nonce)
        (record { at = λ k. simp table_laws (ground (arith, h.at k, ===_iff id k, e)) })
]

-- The message and its queue entry go together.
remove-Inv :
    (id : Text) (files : Table FileRow) (s : Store)
    → Inv s
    → Inv (record s { files = files; messages = delete id s.messages; outbox = delete id s.outbox })
remove-Inv id files s h = record { at = λ k. simp table_laws (ground (arith, h.at k)) }

delete_message-Inv : (id : Text) (s : Store) → Inv s → Inv (delete_message id s)
unfolding delete_message
delete_message-Inv id s h = elim (Option-cases (lookup id s.messages)) [
  | inl e ↦ rw (e, delete_message) h
  | inr (m, e) ↦ rw (e, delete_message) (remove-Inv id _ s h)
]

edit_message-Inv : (id new_body : Text) (s : Store) → Inv s → Inv (edit_message id new_body s).1
unfolding edit_message
edit_message-Inv id new_body s h = elim (Option-cases (lookup id s.messages)) [
  | inl e ↦ rw (e, edit_message) h
  | inr (m, e) ↦ elim (Bool-cases (is_file_ref m.body)) [
    | inl f ↦ rw (e, edit_message, f) h
    | inr f ↦
        rw (e, edit_message, f)
          (record { at = λ k. simp table_laws (ground (arith, h.at k, ===_iff id k, e)) })
  ]
]

clear_rows-Inv : (rows : Table Message) (s : Store) → Inv s → Inv (clear_rows rows s)
unfolding clear_rows
clear_rows-Inv [] s h = h
clear_rows-Inv ((id, m) ∷ rows) s h = clear_rows-Inv rows _ (remove-Inv id _ s h)

-- The operations of the storage, with their arguments.
pub data Op : Type 0 where
  op_save_outgoing : Text → ℕ → Text → Text → Op
  op_save_incoming : Text → Text → Text → ℕ → ℕ → Op
  op_mark_status : Text → Status → Op
  op_bump_attempt : Text → ℕ → Op
  op_set_mailbox_nonce : Text → Bytes → Op
  op_delete_message : Text → Op
  op_edit_message : Text → Text → Op
  op_clear_history : Text → Op
  op_wipe : Op
  op_save_file_meta : Text → FileRow → Op
  op_save_file_blob : Text → Bytes → Op

unfoldable pub apply : Op → Store → Store
apply (op_save_outgoing id now peer_id body) s = save_outgoing id now peer_id body s
apply (op_save_incoming peer_id id body ts now) s = (save_incoming peer_id id body ts now s).1
apply (op_mark_status id status) s = mark_status id status s
apply (op_bump_attempt id now) s = bump_attempt id now s
apply (op_set_mailbox_nonce id nonce) s = set_mailbox_nonce id nonce s
apply (op_delete_message id) s = delete_message id s
apply (op_edit_message id new_body) s = (edit_message id new_body s).1
apply (op_clear_history peer_id) s = (clear_history peer_id s).1
apply op_wipe s = wipe s
apply (op_save_file_meta id meta) s = save_file_meta id meta s
apply (op_save_file_blob id blob) s = save_file_blob id blob s

unfoldable pub apply_all : List Op → Store → Store
apply_all [] s = s
apply_all (o ∷ os) s = apply_all os (apply o s)

files-Inv : (files : Table FileRow) (s : Store) → Inv s → Inv (record s { files = files })
files-Inv files s h = record { at = h.at }

save_file_blob-Inv : (id : Text) (blob : Bytes) (s : Store) → Inv s → Inv (save_file_blob id blob s)
unfolding save_file_blob
save_file_blob-Inv id blob s h = elim (Option-cases (lookup id s.files)) [
  | inl e ↦ rw (e, save_file_blob) h
  | inr (f, e) ↦ rw (e, save_file_blob) (files-Inv _ s h)
]

apply-Inv : (o : Op) (s : Store) → Inv s → Inv (apply o s)
unfolding apply clear_history wipe save_file_meta
apply-Inv (op_save_outgoing id now peer_id body) s h = save_outgoing-Inv id now peer_id body s h
apply-Inv (op_save_incoming peer_id id body ts now) s h =
    save_incoming-Inv peer_id id body ts now s h
apply-Inv (op_mark_status id status) s h = mark_status-Inv id status s h
apply-Inv (op_bump_attempt id now) s h = bump_attempt-Inv id now s h
apply-Inv (op_set_mailbox_nonce id nonce) s h = set_mailbox_nonce-Inv id nonce s h
apply-Inv (op_delete_message id) s h = delete_message-Inv id s h
apply-Inv (op_edit_message id new_body) s h = edit_message-Inv id new_body s h
apply-Inv (op_clear_history peer_id) s h = clear_rows-Inv (select (of_peer peer_id) s.messages) s h
apply-Inv op_wipe s h = record { at = λ k. unfold lookup in tt }
apply-Inv (op_save_file_meta id meta) s h = files-Inv _ s h
apply-Inv (op_save_file_blob id blob) s h = save_file_blob-Inv id blob s h

apply_all-Inv : (os : List Op) (s : Store) → Inv s → Inv (apply_all os s)
unfolding apply_all
apply_all-Inv [] s h = h
apply_all-Inv (o ∷ os) s h = apply_all-Inv os (apply o s) (apply-Inv o s h)

-- From an empty storage, after any operations, every entry of the outbox belongs to a stored
-- outgoing message whose status is neither `delivered` nor `read`.
pub outbox_sound : (os : List Op) → Inv (apply_all os empty_store)
outbox_sound os = apply_all-Inv os empty_store empty-Inv
