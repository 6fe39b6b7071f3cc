-- ===== src/Chat.antt =====
-- What the page of `web/app.js` keeps of a chat beside the storage: the counters of unread messages
-- and missed calls, the read marks, and the window of rows on screen.
pub mod Counts
pub mod Reading
pub mod Links
pub mod Days
pub mod Tests
use tele.Prelude.{
  ℕ, ◌+◌, Bool, true, false, not, ◌&&◌, ◌||◌, Option, none, some, List, [], ◌∷◌, ◌++◌, ltb, ◌==◌,
  if◌then◌else◌, ◌===◌, length,
}
use tele.Bytes.{Text}
use tele.Table.{Table, lookup, put, delete}
use tele.Storage.{Store, is_outgoing}
use tele.Storage.Rows.{Row, history, history_tail, history_before}

-- `unread` and `missedCalls`, by the hex id of the contact.
abbrev pub Counters : Type 0
Counters = Table ℕ

-- `counts[id] || 0`
unfoldable pub count : Text → Counters → ℕ
unfolding lookup
count id t = elim (lookup id t) [ none ↦ 0 | some n ↦ n ]

-- bumpUnread, bumpMissed
unfoldable pub bump : Text → Counters → Counters
unfolding count put
bump id t = put id (count id t + 1) t

-- clearUnread, clearMissed
unfoldable pub clear : Text → Counters → Counters
unfolding count delete
clear id t = if count id t == 0 then t else delete id t

-- CHAT_WINDOW and CHAT_PAGE
abbrev pub chat_window : ℕ
chat_window = 50

abbrev pub chat_page : ℕ
chat_page = 25

-- The rows on screen, the top one first, oldestLoadedTs and noMoreOlder.
pub record View : Type 0 where
  pub rows : List Row
  pub oldest_ts : Option ℕ
  pub no_more_older : Bool

abbrev first_ts : List Row → Option ℕ
first_ts [] = none
first_ts (r ∷ rows) = some r.1.ts

-- refreshChat of a peer, with the size of the window.
unfoldable pub refresh_chat : ℕ → Text → Store → View
unfolding history_tail
refresh_chat window peer_id s =
    let rows = history_tail peer_id window s in
    record { rows = rows; oldest_ts = first_ts rows; no_more_older = ltb (length rows) window }

unfoldable pub is_shown : Text → List Row → Bool
is_shown id [] = false
is_shown id (r ∷ rows) = r.0 === id || is_shown id rows

-- `rows.filter((m) => !renderedMessages.has(m.id))`
unfoldable pub not_shown : List Row → List Row → List Row
unfolding is_shown
not_shown shown [] = []
not_shown shown (r ∷ rows) =
    let rest = not_shown shown rows in if is_shown r.0 shown then rest else r ∷ rest

-- What loadOlderMessages does with the page of `rows` that it got.
unfoldable pub show_older : ℕ → List Row → View → View
unfolding not_shown
show_older page rows v = elim (not_shown v.rows rows) [
  | [] ↦ record v { no_more_older = true }
  | r ∷ fresh ↦ record {
    rows = (r ∷ fresh) ++ v.rows;
    oldest_ts = some r.1.ts;
    no_more_older = ltb (length rows) page;
  }
]

-- loadOlderMessages of a peer, with the size of a page; loads do not overlap.
unfoldable pub load_older : ℕ → Text → Store → View → View
unfolding history_before show_older
load_older page peer_id s v = if v.no_more_older then v else elim v.oldest_ts [
  | none ↦ v
  | some ts ↦ show_older page (history_before peer_id ts page s) v
]

-- `readAcked`, and the READ_ACK frames that went out, the newest first.
pub record Acks : Type 0 where
  pub read_acked : List Text
  pub sent_ids : List Text

unfoldable pub is_acked : Text → List Text → Bool
is_acked id [] = false
is_acked id (j ∷ ids) = j === id || is_acked id ids

-- `m.dir === 'in' && !readAcked.has(m.id)`
abbrev pub is_due : List Text → Row → Bool
is_due ids r = not (is_outgoing r.1.dir) && not (is_acked r.0 ids)

-- The loop of markHistoryRead; `ok` says whether sendReadAck returns true.
unfoldable pub mark_rows : Bool → List Row → Acks → Acks
unfolding is_acked
mark_rows ok [] a = a
mark_rows ok (r ∷ rows) a = mark_rows ok rows (
    if is_due a.read_acked r
    then record {
      read_acked = r.0 ∷ a.read_acked;
      sent_ids = if ok then r.0 ∷ a.sent_ids else a.sent_ids;
    }
    else a)

-- markHistoryRead
unfoldable pub mark_history_read : Bool → Text → Store → Acks → Acks
unfolding mark_rows history
mark_history_read ok peer_id s a = mark_rows ok (history peer_id s) a
