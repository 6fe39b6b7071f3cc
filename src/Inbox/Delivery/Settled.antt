-- ===== src/Inbox/Delivery/Settled.antt =====
-- When the sender takes a message for done: its status is final, or the retry queue has dropped it.
use tele.Prelude.{
  ℕ, ◌≡◌, refl, sym, ◌∙◌, inl, inr, Bool, true, false, ◌&&◌, Option, none, some, List, [], ◌∷◌,
  arith, if◌then◌else◌, Bool-cases, Option-cases, ◌===◌, ===_iff,
}
use tele.Bytes.{Text}
use tele.Table.{lookup, table_laws}
use tele.Storage.Flush.{flush_rows}
use tele.Storage.Rows.{Row}
use tele.Storage.{
  Status, sent, Message, OutboxEntry, Store, is_final, save_outgoing, mark_status, bump_attempt,
}

abbrev pub is_settled : Option Message → Option OutboxEntry → Bool
is_settled none q = false
is_settled (some m) none = true
is_settled (some m) (some q) = is_final m.status

abbrev pub settled : Text → Store → Bool
settled k s = is_settled (lookup k s.messages) (lookup k s.outbox)

pub settled-save_outgoing :
    (id : Text) (now : ℕ) (peer_id text k : Text) (s : Store)
    → settled k (save_outgoing id now peer_id text s) ≡ (if id === k then false else settled k s)
unfolding save_outgoing
settled-save_outgoing id now peer_id text k s = simp table_laws (ground arith)

abbrev is_missing : Option OutboxEntry → Bool
is_missing none = true
is_missing (some q) = false

settled-mark_sent :
    (id k : Text) (s : Store)
    → settled k (mark_status id sent s)
      ≡ (if id === k then settled k s && is_missing (lookup k s.outbox) else settled k s)
unfolding mark_status
settled-mark_sent id k s = elim (Option-cases (lookup id s.messages)) [
  | inl e ↦ rw (e, mark_status) (ground (arith, ===_iff id k, e))
  | inr (m, e) ↦ rw (e, mark_status) (simp table_laws (ground (arith, ===_iff id k, e)))
]

-- A status that is not final settles nothing.
pub mark_sent_settles :
    (id k : Text) (s : Store) → settled k (mark_status id sent s) ≡ true → settled k s ≡ true
mark_sent_settles id k s h = ground (arith, settled-mark_sent id k s, h)

settled-bump_attempt :
    (id : Text) (now : ℕ) (k : Text) (s : Store) → settled k (bump_attempt id now s) ≡ settled k s
unfolding bump_attempt
settled-bump_attempt id now k s = elim (Option-cases (lookup id s.outbox)) [
  | inl e ↦ rw (e, bump_attempt) refl
  | inr (q, e) ↦ rw (e, bump_attempt) (simp table_laws (ground (arith, ===_iff id k, e)))
]

-- A final status settles one message.
pub mark_final_settles :
    (id : Text) (st : Status) (k : Text) (s : Store)
    → (id === k) ≡ false
    → settled k (mark_status id st s) ≡ settled k s
unfolding mark_status
mark_final_settles id st k s f = elim (Option-cases (lookup id s.messages)) [
  | inl e ↦ rw (e, mark_status) refl
  | inr (m, e) ↦ elim (Bool-cases (is_final st)) [
    | inl g ↦ rw (e, mark_status, g) (simp table_laws (rw f refl))
    | inr g ↦ rw (e, mark_status, g) (simp table_laws (rw f refl))
  ]
]

-- Neither does a retry.
pub flush_rows_settles :
    (ok : Text → Bool) (now : ℕ) (rows : List Row) (k : Text) (s : Store)
    → settled k (flush_rows ok now rows s) ≡ true
    → settled k s ≡ true
unfolding flush_rows
flush_rows_settles ok now [] k s h = h
flush_rows_settles ok now (r ∷ rows) k s h = elim (Bool-cases (ok r.0)) [
  | inl e ↦
      mark_sent_settles r.0 k s
        (flush_rows_settles ok now rows k (mark_status r.0 sent s) (rw e at h))
  | inr e ↦ sym (settled-bump_attempt r.0 now k s) ∙ (rw e at h)
]
