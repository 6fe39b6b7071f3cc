-- ===== src/Storage/Flush.antt =====
-- Sending the retry queue of a peer again: flushOutboxFor of `web/app.js`.
use tele.Prelude.{
  ℕ, ◌≡◌, inl, inr, Bool, Option, none, some, List, [], ◌∷◌, arith, if◌then◌else◌, Bool-cases,
  Option-cases,
}
use tele.Bytes.{Text}
use tele.Table.{lookup, table_laws}
use tele.Storage.{sent, OutboxEntry, Store, mark_status, bump_attempt}
use tele.Storage.Rows.{Row, pending_for}

-- The loop of flushOutboxFor; `ok` says whether replayFileSend or sendText returns true for the id,
-- and the first that does not ends the loop.
unfoldable pub flush_rows : (Text → Bool) → ℕ → List Row → Store → Store
unfolding mark_status bump_attempt
flush_rows ok now [] s = s
flush_rows ok now (r ∷ rows) s =
    let rest = flush_rows ok now rows (mark_status r.0 sent s) in
    if ok r.0 then rest else bump_attempt r.0 now s

-- flushOutboxFor
unfoldable pub flush_outbox_for : (Text → Bool) → ℕ → Text → Store → Store
unfolding flush_rows pending_for
flush_outbox_for ok now peer_id s = flush_rows ok now (pending_for peer_id s) s

-- There is an entry.
abbrev pub IsEntry : Option OutboxEntry → Type 0
IsEntry none = ⊥
IsEntry (some q) = Unit {0}

mark_sent-outbox : (id : Text) (s : Store) → (mark_status id sent s).outbox ≡ s.outbox
unfolding mark_status
mark_sent-outbox id s = ground arith

bump_attempt-IsEntry :
    (id k : Text) (now : ℕ) (s : Store)
    → IsEntry (lookup k s.outbox)
    → IsEntry (lookup k (bump_attempt id now s).outbox)
unfolding bump_attempt
bump_attempt-IsEntry id k now s h = elim (Option-cases (lookup id s.outbox)) [
  | inl e ↦ rw (e, bump_attempt) h
  | inr (q, e) ↦ rw (e, bump_attempt) (simp table_laws (ground (arith, h)))
]

flush_rows-IsEntry :
    (ok : Text → Bool) (now : ℕ) (rows : List Row) (s : Store) (k : Text)
    → IsEntry (lookup k s.outbox)
    → IsEntry (lookup k (flush_rows ok now rows s).outbox)
unfolding flush_rows
flush_rows-IsEntry ok now [] s k h = h
flush_rows-IsEntry ok now (r ∷ rows) s k h = elim (Bool-cases (ok r.0)) [
  | inl e ↦
      rw e
        (flush_rows-IsEntry ok now rows (mark_status r.0 sent s) k (rw (mark_sent-outbox r.0 s) h))
  | inr e ↦ rw e (bump_attempt-IsEntry r.0 k now s h)
]

-- However many of the frames go out, sending the queue of a peer again takes no message off the
-- queue: an id that has an entry has one afterwards.
pub flush_keeps_queue :
    (ok : Text → Bool) (now : ℕ) (peer_id : Text) (s : Store) (k : Text)
    → IsEntry (lookup k s.outbox)
    → IsEntry (lookup k (flush_outbox_for ok now peer_id s).outbox)
unfolding flush_outbox_for
flush_keeps_queue ok now peer_id s k h = flush_rows-IsEntry ok now (pending_for peer_id s) s k h
