-- ===== src/Storage/Rows.antt =====
-- The reading side of `web/storage.js`: rows in the order of their time, windows of them, search
-- and the retry queue.
use tele.Prelude.{
  ℕ, ◌-◌, Bool, false, not, ◌&&◌, ◌||◌, Option, none, some, List, [], ◌∷◌, reverse, ltb, leb, ◌==◌,
  if◌then◌else◌, ◌===◌, length, drop,
}
use tele.Bytes.{Text, is_space, contains}
use tele.Table.{Table, lookup, select}
use tele.Storage.{Message, OutboxEntry, Store, is_outgoing, is_file_ref, of_peer}

abbrev pub Row : Type 0
Row = Text × Message

-- The comparator `(a.ts - b.ts) || ((a.seq || 0) - (b.seq || 0))` is at most 0.
abbrev pub earlier : Row → Row → Bool
earlier (i, a) (j, b) = ltb a.ts b.ts || a.ts == b.ts && leb a.seq b.seq

unfoldable pub insert : Row → List Row → List Row
insert r [] = r ∷ []
insert r (q ∷ rows) = let rest = insert r rows in if earlier r q then r ∷ q ∷ rows else q ∷ rest

-- `rows.sort(comparator)`: the sort is stable, so the result is that of any stable sort.
unfoldable pub sort : List Row → List Row
unfolding insert
sort [] = []
sort (r ∷ rows) = insert r (sort rows)

-- history
unfoldable pub history : Text → Store → List Row
unfolding sort
history peer_id s = sort (select (of_peer peer_id) s.messages)

-- `rows.slice(-limit)` of more than `limit` rows, all the rows for a limit of 0.
unfoldable pub tail_of : ℕ → List Row → List Row
tail_of limit rows =
    if not (limit == 0) && ltb limit (length rows) then drop (length rows - limit) rows else rows

-- historyTail
unfoldable pub history_tail : Text → ℕ → Store → List Row
unfolding history tail_of
history_tail peer_id limit s = tail_of limit (history peer_id s)

abbrev pub up_to : Text → ℕ → Text → Message → Bool
up_to peer_id before_ts id m = m.peer_id === peer_id && leb m.ts before_ts

-- historyBefore
unfoldable pub history_before : Text → ℕ → ℕ → Store → List Row
unfolding sort tail_of
history_before peer_id before_ts limit s =
    tail_of limit (sort (select (up_to peer_id before_ts) s.messages))

unfoldable pub trim_start : Text → Text
unfolding is_space
trim_start [] = []
trim_start (c ∷ s) = let rest = trim_start s in if is_space c then rest else c ∷ s

-- `s.trim()`
unfoldable pub trim : Text → Text
unfolding trim_start
trim s = reverse (trim_start (reverse (trim_start s)))

module _ (lower : Text → Text) where
  -- `toLowerCase` is `lower`.
  abbrev pub hit : Text → Text → Message → Bool
  hit q id m = not (is_file_ref m.body) && contains q (lower m.body)

  -- search
  unfoldable pub search_chat : Text → Text → Store → List Row
  unfolding history trim
  search_chat peer_id query s =
      let q = lower (trim query) in if q === [] then [] else select (hit q) (history peer_id s)

abbrev pub is_pending_for : Text → Option Message → Bool
is_pending_for peer_id none = false
is_pending_for peer_id (some m) = m.peer_id === peer_id && is_outgoing m.dir

abbrev pub add_row : Bool → Text → Option Message → List Row → List Row
add_row b id none rows = rows
add_row b id (some m) rows = if b then (id, m) ∷ rows else rows

-- The loop of pendingFor over the queue: each entry is joined with its message.
unfoldable pub join_queue : Text → Table OutboxEntry → Table Message → List Row
join_queue peer_id [] messages = []
join_queue peer_id ((id, q) ∷ queue) messages =
    let m = lookup id messages in
    add_row (is_pending_for peer_id m) id m (join_queue peer_id queue messages)

-- pendingFor, without the copy of the retry counter
unfoldable pub pending_for : Text → Store → List Row
unfolding join_queue sort
pending_for peer_id s = sort (join_queue peer_id s.outbox s.messages)
