-- ===== src/Inbox/Delivery.antt =====
-- Two pages of `web/app.js` and the relay between them: the texts that one user sends to the other.
-- The relay may lose, repeat, delay and reorder what the pages send: a call of a send method may
-- reach the other page at any later time, any number of times, or never. Files, edits and deletions
-- are not part of this system, nor are messages of other peers.
pub mod Bodies
pub mod Settled
pub mod Safety
pub mod Steps
pub mod Messages
pub mod Arrivals
pub mod Shown
pub mod Refinement
pub mod Retry
use tele.Inbox.Blocked.{text, replay_file_send}
use tele.Prelude.{
  ℕ, ◌≡◌, ◌⊎◌, Bool, true, not, ◌&&◌, Option, none, some, List, [], ◌∷◌, ◌++◌, if◌then◌else◌,
}
use tele.Bytes.{Text}
use tele.Table.{lookup}
use tele.Storage.{Store, empty_store, is_file_ref}
use tele.Storage.Rows.{Row, pending_for}
use tele.Storage.Flush.{flush_outbox_for}
use tele.Inbox.{
  Out, text_out, delivery_ack_out, read_ack_out, Page, on_text, on_delivered, on_read, send_new,
  delivery_watchdog,
}

-- The page of the sender and that of the receiver.
pub record Pair : Type 0 where
  pub from : Page
  pub to : Page

abbrev pub fresh_page : Page
fresh_page = record {
  store = empty_store;
  persists = true;
  blacklist = [];
  current = none;
  editing = none;
  unread = [];
  read_acked = [];
  pending_delivery = [];
  outs = [];
}

abbrev pub start : Pair
start = record { from = fresh_page; to = fresh_page }

-- A call is on the list.
abbrev pub In : Out → List Out → Type 0
In o [] = ⊥
In o (x ∷ outs) = (x ≡ o) ⊎ In o outs

-- What sendText or replayFileSend returns for the message of an id. `ok` is what the socket does with
-- the frames of it; a file reference without a stored blob fails whatever the socket does.
unfoldable pub taken : (Text → Bool) → Store → Text → Bool
unfolding lookup is_file_ref replay_file_send
taken ok s id = elim (lookup id s.messages) [
  | none ↦ ok id
  | some m ↦
      if is_file_ref m.body
      then ok id && (replay_file_send true (λ i. true) true id m.body s).1
      else ok id
]

module _ (from_id to_id : Text) where
  -- The texts that flushOutboxFor sends; `ok` is what each sendText or replayFileSend returns.
  unfoldable pub resent : (Text → Bool) → List Row → List Out
  unfolding is_file_ref
  resent ok [] = []
  resent ok (r ∷ rows) =
      let rest = resent ok rows in
      if not (ok r.0)
      then []
      else if is_file_ref r.1.body
      then rest
      else text_out to_id r.0 r.1.body ∷ rest

  -- flushOutboxFor on the page of the sender; `ok` is what the socket does.
  unfoldable pub flushed : (Text → Bool) → ℕ → Page → Page
  unfolding taken resent flush_outbox_for pending_for
  flushed ok now p = record p {
    store = flush_outbox_for (taken ok p.store) now to_id p.store;
    outs = resent (taken ok p.store) (pending_for to_id p.store) ++ p.outs;
  }

  -- What may happen next. A new id is one that no message of the sender has. When the receiver looks at
  -- another chat, the counter of unread messages stays, so that it counts all that were shown.
  pub data Step : Pair → Pair → Type 0 where
    sends :
        (id text : Text) (now : ℕ) (ok online : Bool) (w : Pair)
        → lookup id w.from.store.messages ≡ none
        → Step w (record w { from = send_new id text now ok online to_id w.from })
    flushes :
        (ok : Text → Bool) (now : ℕ) (w : Pair) → Step w (record w { from = flushed ok now w.from })
    fires :
        (connected : Bool) (id : Text) (w : Pair)
        → Step w (record w { from = delivery_watchdog connected id w.from })
    arrives :
        (id text : Text) (now : ℕ) (w : Pair)
        → In (text_out to_id id text) w.from.outs
        → Step w (record w { to = on_text from_id id text now w.to })
    acknowledges :
        (id : Text) (w : Pair)
        → In (delivery_ack_out from_id id) w.to.outs
        → Step w (record w { from = on_delivered to_id id w.from })
    reads :
        (id : Text) (w : Pair)
        → In (read_ack_out from_id id) w.to.outs
        → Step w (record w { from = on_read to_id id w.from })
    looks : (c : Option Text) (w : Pair) → Step w (record w { to = record w.to { current = c } })

  pub data Reachable : Pair → Type 0 where
    begin : Reachable start
    next : (v w : Pair) → Reachable v → Step v w → Reachable w
