-- ===== src/Storage/Windows.antt =====
-- historyBefore and pendingFor of `web/storage.js`: a page of older messages, and the retry queue of
-- one peer.
use tele.Prelude.{
  ℕ, ◌≡◌, refl, ◌⊎◌, inl, inr, Bool, true, false, Option, none, some, List, [], ◌∷◌, ◌++◌,
  Bool-cases, Option-cases, ◌===◌, eq_of_===, All,
}
use tele.Bytes.{Text}
use tele.Table.{Table, lookup, select}
use tele.Storage.{Message, OutboxEntry, Store}
use tele.Storage.Rows.{
  Row, earlier, insert, sort, tail_of, up_to, history_before, is_pending_for, add_row, join_queue,
  pending_for,
}
use tele.Storage.History.{IsSorted, sort-IsSorted, tail_of_split}

-- A row stands in a list.
abbrev pub Has : Row → List Row → Type 0
Has r [] = ⊥
Has r (q ∷ rows) = (q ≡ r) ⊎ Has r rows

module _ (P : Row → Type 0) where
  All-insert : (r : Row) (rows : List Row) → P r → All P rows → All P (insert r rows)
  unfolding insert
  All-insert r [] p a = (p, tt)
  All-insert r (q ∷ rows) p a = elim (Bool-cases (earlier r q)) [
    | inl e ↦ rw e (p, a)
    | inr e ↦ rw e (a.0, All-insert r rows p a.1)
  ]

  All-sort : (rows : List Row) → All P rows → All P (sort rows)
  unfolding sort
  All-sort [] a = tt
  All-sort (r ∷ rows) a = All-insert r (sort rows) a.0 (All-sort rows a.1)

  All-suffix : (xs ys : List Row) → All P (xs ++ ys) → All P ys
  All-suffix [] ys a = a
  All-suffix (x ∷ xs) ys a = All-suffix xs ys a.1

IsSorted-suffix : (xs ys : List Row) → IsSorted (xs ++ ys) → IsSorted ys
IsSorted-suffix [] ys s = s
IsSorted-suffix (x ∷ xs) ys s = IsSorted-suffix xs ys s.1

All-select :
    (p : Text → Message → Bool) (t : Table Message)
    → All (λ (r : Row). p r.0 r.1 ≡ true) (select p t)
unfolding select
All-select p [] = tt
All-select p ((k, m) ∷ t) = elim (Bool-cases (p k m)) [
  | inl e ↦ rw e (e, All-select p t)
  | inr e ↦ rw e (All-select p t)
]

-- A page of older messages is in the order of time, has only rows of the peer that are at most as
-- late as the bound, and is the end of all of these in that order.
pub history_before_lem :
    (peer_id : Text) (before_ts limit : ℕ) (s : Store)
    → let page = history_before peer_id before_ts limit s in
      let rows = sort (select (up_to peer_id before_ts) s.messages) in
      IsSorted page
      × All (λ (r : Row). up_to peer_id before_ts r.0 r.1 ≡ true) page
      × ((older : List Row) × (older ++ page ≡ rows))
unfolding history_before
history_before_lem peer_id before_ts limit s =
    let fits = select (up_to peer_id before_ts) s.messages in
    let (older, split, len) = tail_of_split limit (sort fits) in
    let page = tail_of limit (sort fits) in
    (
      IsSorted-suffix older page (rw split (sort-IsSorted fits)),
      All-suffix _ older page
          (rw split (All-sort _ fits (All-select (up_to peer_id before_ts) s.messages))),
      (older, split),
    )

Has-insert_self : (r : Row) (rows : List Row) → Has r (insert r rows)
unfolding insert
Has-insert_self r [] = inl refl
Has-insert_self r (q ∷ rows) = elim (Bool-cases (earlier r q)) [
  | inl e ↦ rw e (inl refl)
  | inr e ↦ rw e (inr (Has-insert_self r rows))
]

Has-insert : (r q : Row) (rows : List Row) → Has q rows → Has q (insert r rows)
unfolding insert
Has-insert r q [] h = absurd h
Has-insert r q (p ∷ rows) h = elim (Bool-cases (earlier r p)) [
  | inl e ↦ rw e (inr h)
  | inr e ↦ rw e (elim h [ inl x ↦ inl x | inr x ↦ inr (Has-insert r q rows x) ])
]

Has-sort : (q : Row) (rows : List Row) → Has q rows → Has q (sort rows)
unfolding sort
Has-sort q [] h = h
Has-sort q (r ∷ rows) (inl e) = rw e (Has-insert_self q (sort rows))
Has-sort q (r ∷ rows) (inr h) = Has-insert r q (sort rows) (Has-sort q rows h)

-- A row of the retry queue of a peer: the stored message of its id, outgoing and to that peer.
abbrev pub IsPendingRow : Text → Table Message → Row → Type 0
IsPendingRow peer_id messages r =
    (lookup r.0 messages ≡ some r.1) × (is_pending_for peer_id (some r.1) ≡ true)

join_queue_sound :
    (peer_id : Text) (queue : Table OutboxEntry) (messages : Table Message)
    → All (IsPendingRow peer_id messages) (join_queue peer_id queue messages)
unfolding join_queue
join_queue_sound peer_id [] messages = tt
join_queue_sound peer_id ((id, q) ∷ queue) messages = elim (Option-cases (lookup id messages)) [
  | inl e ↦ rw e (join_queue_sound peer_id queue messages)
  | inr (m, e) ↦ elim (Bool-cases (is_pending_for peer_id (some m))) [
    | inl b ↦ rw (e, b) ((e, b), join_queue_sound peer_id queue messages)
    | inr b ↦ rw (e, b) (join_queue_sound peer_id queue messages)
  ]
]

Has-add_row :
    (r : Row) (b : Bool) (id : Text) (m : Option Message) (rows : List Row)
    → Has r rows
    → Has r (add_row b id m rows)
Has-add_row r b id none rows h = h
Has-add_row r true id (some m) rows h = inr h
Has-add_row r false id (some m) rows h = h

join_queue_complete :
    (peer_id id : Text) (q : OutboxEntry) (m : Message) (queue : Table OutboxEntry)
    (messages : Table Message)
    → lookup id queue ≡ some q
    → lookup id messages ≡ some m
    → is_pending_for peer_id (some m) ≡ true
    → Has (id, m) (join_queue peer_id queue messages)
unfolding join_queue lookup
join_queue_complete peer_id id q m [] messages h e b = cc
join_queue_complete peer_id id q m ((j, r) ∷ queue) messages h e b =
    let rest = join_queue peer_id queue messages in
    elim (Bool-cases (j === id)) [
      | inl k ↦ rw (eq_of_=== j id k, e, b) (inl refl)
      | inr k ↦
          Has-add_row (id, m) (is_pending_for peer_id (lookup j messages)) j (lookup j messages)
            rest (join_queue_complete peer_id id q m queue messages (rw k at h) e b)
    ]

-- The rows of pendingFor are in the order of time, and each is the stored outgoing message of its id
-- to that peer.
pub pending_for_sound :
    (peer_id : Text) (s : Store)
    → IsSorted (pending_for peer_id s)
      × All (IsPendingRow peer_id s.messages) (pending_for peer_id s)
unfolding pending_for
pending_for_sound peer_id s =
    let rows = join_queue peer_id s.outbox s.messages in
    (sort-IsSorted rows, All-sort _ rows (join_queue_sound peer_id s.outbox s.messages))

-- Every stored outgoing message to a peer that has an entry in the outbox is among the rows of
-- pendingFor.
pub pending_for_complete :
    (peer_id id : Text) (q : OutboxEntry) (m : Message) (s : Store)
    → lookup id s.outbox ≡ some q
    → lookup id s.messages ≡ some m
    → is_pending_for peer_id (some m) ≡ true
    → Has (id, m) (pending_for peer_id s)
unfolding pending_for
pending_for_complete peer_id id q m s h e b =
    let rows = join_queue peer_id s.outbox s.messages in
    Has-sort (id, m) rows (join_queue_complete peer_id id q m s.outbox s.messages h e b)
