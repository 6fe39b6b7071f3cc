-- ===== src/Inbox/Delivery/Bodies.antt =====
-- What the operations of the storage do to the texts of messages.
use tele.Prelude.{
  ℕ, ◌≡◌, refl, ap, ◌∙◌, inl, inr, Bool, Option, none, some, List, [], ◌∷◌, arith, if◌then◌else◌,
  Bool-cases, Option-cases, ◌===◌, ===_iff, All,
}
use tele.Bytes.{Text}
use tele.Table.{Table, lookup, table_laws}
use tele.Storage.{
  Status, sent, Message, OutboxEntry, Store, is_final, save_outgoing, save_incoming, mark_status,
  bump_attempt,
}
use tele.Storage.Rows.{Row, earlier, insert, sort, is_pending_for, join_queue, pending_for}
use tele.Storage.Flush.{flush_rows}

abbrev pub body_of : Option Message → Option Text
body_of none = none
body_of (some m) = some m.body

-- The text of a message.
abbrev pub body_at : Text → Store → Option Text
body_at id s = body_of (lookup id s.messages)

pub body_at-save_outgoing :
    (id : Text) (now : ℕ) (peer_id text k : Text) (s : Store)
    → body_at k (save_outgoing id now peer_id text s)
      ≡ (if id === k then some text else body_at k s)
unfolding save_outgoing
body_at-save_outgoing id now peer_id text k s = simp table_laws (ground arith)

pub body_at-mark_status :
    (id : Text) (st : Status) (k : Text) (s : Store) → body_at k (mark_status id st s) ≡ body_at k s
unfolding mark_status
body_at-mark_status id st k s = elim (Option-cases (lookup id s.messages)) [
  | inl e ↦ rw (e, mark_status) refl
  | inr (m, e) ↦ elim (Bool-cases (is_final st)) [
    | inl f ↦ rw (e, mark_status, f) (simp table_laws (ground (arith, ===_iff id k, e)))
    | inr f ↦ rw (e, mark_status, f) (simp table_laws (ground (arith, ===_iff id k, e)))
  ]
]

pub body_at-bump_attempt :
    (id : Text) (now : ℕ) (k : Text) (s : Store) → body_at k (bump_attempt id now s) ≡ body_at k s
unfolding bump_attempt
body_at-bump_attempt id now k s = ground arith

pub body_at-flush_rows :
    (ok : Text → Bool) (now : ℕ) (rows : List Row) (k : Text) (s : Store)
    → body_at k (flush_rows ok now rows s) ≡ body_at k s
unfolding flush_rows
body_at-flush_rows ok now [] k s = refl
body_at-flush_rows ok now (r ∷ rows) k s = elim (Bool-cases (ok r.0)) [
  | inl e ↦
      rw e (
        body_at-flush_rows ok now rows k (mark_status r.0 sent s)
        ∙ body_at-mark_status r.0 sent k s)
  | inr e ↦ rw e (body_at-bump_attempt r.0 now k s)
]

-- What an id has after a save: `old` is what the saved id had, `same` says whether it is this id.
abbrev pub first : Option Text → Bool → Text → Option Text → Option Text
first none same text b = if same then some text else b
first (some old) same text b = b

-- A new text for an id, an old one stays.
abbrev pub first_wins : Text → Text → Text → Store → Option Text
first_wins id text k s = first (body_at id s) (id === k) text (body_at k s)

-- Saving a message that comes in: a new id gets the text, a known one keeps its own.
pub body_at-save_incoming :
    (peer_id id text : Text) (ts now : ℕ) (k : Text) (s : Store)
    → body_at k (save_incoming peer_id id text ts now s).1 ≡ first_wins id text k s
unfolding save_incoming
body_at-save_incoming peer_id id text ts now k s = elim (Option-cases (lookup id s.messages)) [
  | inl e ↦ rw (e, save_incoming) (simp table_laws (ground arith))
  | inr (m, e) ↦ rw (e, save_incoming) refl
]

-- The rows of a queue are stored as they are.
abbrev pub IsStored : Store → Row → Type 0
IsStored s r = body_at r.0 s ≡ some r.1.body

All-insert :
    (s : Store) (r : Row) (rows : List Row)
    → IsStored s r
    → All (IsStored s) rows
    → All (IsStored s) (insert r rows)
unfolding insert
All-insert s r [] h hs = (h, tt)
All-insert s r (q ∷ rows) h hs = elim (Bool-cases (earlier r q)) [
  | inl e ↦ rw e (h, hs)
  | inr e ↦ rw e (hs.0, All-insert s r rows h hs.1)
]

All-sort : (s : Store) (rows : List Row) → All (IsStored s) rows → All (IsStored s) (sort rows)
unfolding sort
All-sort s [] h = tt
All-sort s (r ∷ rows) h = All-insert s r (sort rows) h.0 (All-sort s rows h.1)

All-join_queue :
    (peer_id : Text) (queue : Table OutboxEntry) (s : Store)
    → All (IsStored s) (join_queue peer_id queue s.messages)
unfolding join_queue
All-join_queue peer_id [] s = tt
All-join_queue peer_id ((id, q) ∷ queue) s = elim (Option-cases (lookup id s.messages)) [
  | inl e ↦ rw (e, join_queue) (All-join_queue peer_id queue s)
  | inr (m, e) ↦ elim (Bool-cases (is_pending_for peer_id (some m))) [
    | inl f ↦ rw (e, join_queue, f) (ap body_of e, All-join_queue peer_id queue s)
    | inr f ↦ rw (e, join_queue, f) (All-join_queue peer_id queue s)
  ]
]

pub pending_for-IsStored : (peer_id : Text) (s : Store) → All (IsStored s) (pending_for peer_id s)
unfolding pending_for
pending_for-IsStored peer_id s = All-sort s _ (All-join_queue peer_id s.outbox s)
