-- ===== src/Storage/History.antt =====
-- history and historyTail: the order of the rows, and which rows there are (`web/storage.js`).
use mathlib.Core.List.{Perm}
use mathlib.Core.List.Perm
use tele.Prelude.{
  ℕ, ◌-◌, ◌<◌, min, ◌≡◌, refl, inl, inr, true, false, not, ◌&&◌, List, [], ◌∷◌, ◌++◌, arith, ltb,
  ◌==◌, Bool-cases, length, take, take-append-drop, length-drop, All,
}
use tele.Bytes.{Text}
use tele.Table.{select}
use tele.Storage.{Store, of_peer}
use tele.Storage.Rows.{Row, earlier, insert, sort, history, tail_of, history_tail}

-- Every row of the list is at least as late as `r`.
abbrev pub AllLater : Row → List Row → Type 0
AllLater r = All (λ q. earlier r q ≡ true)

abbrev pub IsSorted : List Row → Type 0
IsSorted [] = Unit {0}
IsSorted (r ∷ rows) = AllLater r rows × IsSorted rows

earlier_trans : (a b c : Row) → earlier a b ≡ true → earlier b c ≡ true → earlier a c ≡ true
earlier_trans (i, a) (j, b) (k, c) h g = ground arith

earlier_total : (a b : Row) → earlier a b ≡ false → earlier b a ≡ true
earlier_total (i, a) (j, b) h = ground arith

AllLater-trans :
    (r q : Row) (rows : List Row) → earlier r q ≡ true → AllLater q rows → AllLater r rows
AllLater-trans r q [] h a = tt
AllLater-trans r q (p ∷ rows) h a = (earlier_trans r q p h a.0, AllLater-trans r q rows h a.1)

AllLater-insert :
    (r q : Row) (rows : List Row)
    → earlier q r ≡ true
    → AllLater q rows
    → AllLater q (insert r rows)
unfolding insert
AllLater-insert r q [] h a = (h, tt)
AllLater-insert r q (p ∷ rows) h a = elim (Bool-cases (earlier r p)) [
  | inl e ↦ rw e (h, a)
  | inr e ↦ rw e (a.0, AllLater-insert r q rows h a.1)
]

insert-IsSorted : (r : Row) (rows : List Row) → IsSorted rows → IsSorted (insert r rows)
unfolding insert
insert-IsSorted r [] h = (tt, tt)
insert-IsSorted r (q ∷ rows) h = elim (Bool-cases (earlier r q)) [
  | inl e ↦ rw e ((e, AllLater-trans r q rows e h.0), h)
  | inr e ↦ rw e (AllLater-insert r q rows (earlier_total r q e) h.0, insert-IsSorted r rows h.1)
]

pub sort-IsSorted : (rows : List Row) → IsSorted (sort rows)
unfolding sort
sort-IsSorted [] = tt
sort-IsSorted (r ∷ rows) = insert-IsSorted r (sort rows) (sort-IsSorted rows)

insert-perm : (r : Row) (rows : List Row) → Perm (insert r rows) (r ∷ rows)
unfolding insert
insert-perm r [] = Perm.refl (r ∷ [])
insert-perm r (q ∷ rows) = elim (Bool-cases (earlier r q)) [
  | inl e ↦ rw e (Perm.refl (r ∷ q ∷ rows))
  | inr e ↦ rw e (Perm.trans (Perm.cons q (insert-perm r rows)) (Perm.swap r q rows))
]

pub sort-perm : (rows : List Row) → Perm (sort rows) rows
unfolding sort
sort-perm [] = Perm.refl []
sort-perm (r ∷ rows) = Perm.trans (insert-perm r (sort rows)) (Perm.cons r (sort-perm rows))

-- The history of a peer is in the order of time, ties in the order of saving, and holds the peer's
-- rows of the table, each once and no other.
pub history_lem :
    (peer_id : Text) (s : Store)
    → IsSorted (history peer_id s) × Perm (history peer_id s) (select (of_peer peer_id) s.messages)
unfolding history
history_lem peer_id s =
    let rows = select (of_peer peer_id) s.messages in (sort-IsSorted rows, sort-perm rows)

pub tail_of_split :
    (limit : ℕ) (rows : List Row)
    → (older : List Row) × (older ++ tail_of limit rows ≡ rows)
      × (0 < limit → length (tail_of limit rows) ≡ min limit (length rows))
unfolding tail_of
tail_of_split limit rows = elim (Bool-cases (not (limit == 0) && ltb limit (length rows))) [
  | inl e ↦ rw e (
    take (length rows - limit) rows,
    take-append-drop (length rows - limit) rows,
    λ h. ground (arith, length-drop (length rows - limit) rows),
  )
  | inr e ↦ rw e ([], refl, λ h. ground arith)
]

-- historyTail is the end of the history, of `limit` rows where there are that many.
pub history_tail_lem :
    (peer_id : Text) (limit : ℕ) (s : Store)
    → 0 < limit
    → (older : List Row) × (older ++ history_tail peer_id limit s ≡ history peer_id s)
      × (length (history_tail peer_id limit s) ≡ min limit (length (history peer_id s)))
unfolding history_tail
history_tail_lem peer_id limit s h =
    let (older, split, len) = tail_of_split limit (history peer_id s) in (older, split, len h)
