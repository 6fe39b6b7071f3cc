-- ===== src/Chat/Reading.antt =====
-- Read marks and the window of rows in `web/app.js`.
use mathlib.Core.Path.{subst}
use tele.Prelude.{
  ℕ, ◌≡◌, refl, sym, ap, ◌∙◌, inl, inr, Bool, true, false, some, List, [], ◌∷◌, arith,
  if◌then◌else◌, Bool-cases, ===_refl, All,
}
use tele.Bytes.{Text}
use tele.Storage.{Store}
use tele.Storage.Rows.{Row, history, history_before}
use tele.Chat.{
  View, not_shown, show_older, load_older, Acks, is_acked, is_due, mark_rows, mark_history_read,
}

is_acked-mark_rows :
    (ok : Bool) (rows : List Row) (a : Acks) (k : Text)
    → is_acked k a.read_acked ≡ true
    → is_acked k (mark_rows ok rows a).read_acked ≡ true
unfolding mark_rows is_acked
is_acked-mark_rows ok [] a k h = h
is_acked-mark_rows ok (r ∷ rows) a k h =
    let a' : Acks = record {
      read_acked = r.0 ∷ a.read_acked;
      sent_ids = if ok then r.0 ∷ a.sent_ids else a.sent_ids;
    } in
    ground (arith, is_acked-mark_rows ok rows a k, is_acked-mark_rows ok rows a' k)

-- No row of the list is due.
AreDone : List Text → List Row → Type 0
AreDone ids = All (λ r. is_due ids r ≡ false)

still_not_due :
    (ok : Bool) (rows : List Row) (a : Acks) (r : Row)
    → is_due a.read_acked r ≡ false
    → is_due (mark_rows ok rows a).read_acked r ≡ false
still_not_due ok rows a r h = ground (arith, h, is_acked-mark_rows ok rows a r.0)

marked : Bool → Row → Acks → Acks
marked ok r a = record {
  read_acked = r.0 ∷ a.read_acked;
  sent_ids = if ok then r.0 ∷ a.sent_ids else a.sent_ids;
}

mark_rows_due :
    (ok : Bool) (r : Row) (rows : List Row) (a : Acks)
    → is_due a.read_acked r ≡ true
    → mark_rows ok (r ∷ rows) a ≡ mark_rows ok rows (marked ok r a)
unfolding mark_rows marked
mark_rows_due ok r rows a d = ap (mark_rows ok rows) (ground (arith, d))

mark_rows_skip :
    (ok : Bool) (r : Row) (rows : List Row) (a : Acks)
    → is_due a.read_acked r ≡ false
    → mark_rows ok (r ∷ rows) a ≡ mark_rows ok rows a
unfolding mark_rows
mark_rows_skip ok r rows a d = ap (mark_rows ok rows) (ground (arith, d))

marked_done : (ok : Bool) (r : Row) (a : Acks) → is_due (marked ok r a).read_acked r ≡ false
unfolding is_acked marked
marked_done ok r a = ground (arith, ===_refl r.0)

mark_rows-done :
    (ok : Bool) (rows : List Row) (a : Acks) → AreDone (mark_rows ok rows a).read_acked rows
unfolding AreDone
mark_rows-done ok [] a = tt
mark_rows-done ok (r ∷ rows) a = elim (Bool-cases (is_due a.read_acked r)) [
  | inl d ↦
      subst (λ (x : Acks). AreDone x.read_acked (r ∷ rows)) (sym (mark_rows_due ok r rows a d))
        (
          still_not_due ok rows (marked ok r a) r (marked_done ok r a),
          mark_rows-done ok rows (marked ok r a),
        )
  | inr d ↦
      subst (λ (x : Acks). AreDone x.read_acked (r ∷ rows)) (sym (mark_rows_skip ok r rows a d))
        (still_not_due ok rows a r d, mark_rows-done ok rows a)
]

mark_rows-idle :
    (ok : Bool) (rows : List Row) (a : Acks) → AreDone a.read_acked rows → mark_rows ok rows a ≡ a
unfolding mark_rows AreDone
mark_rows-idle ok [] a h = refl
mark_rows-idle ok (r ∷ rows) a h = rw h.0 (mark_rows-idle ok rows a h.1)

-- Opening a chat again changes nothing: whether or not the frames of the first time went out, the
-- second call of markHistoryRead on the same storage sends nothing.
pub marked_once :
    (first second : Bool) (peer_id : Text) (s : Store) (a : Acks)
    → mark_history_read second peer_id s (mark_history_read first peer_id s a)
      ≡ mark_history_read first peer_id s a
unfolding mark_history_read
marked_once first second peer_id s a =
    let rows = history peer_id s in
    mark_rows-idle second rows (mark_rows first rows a) (mark_rows-done first rows a)

nothing_sent : (rows : List Row) (a : Acks) → (mark_rows false rows a).sent_ids ≡ a.sent_ids
unfolding mark_rows
nothing_sent [] a = refl
nothing_sent (r ∷ rows) a = grind (arith, nothing_sent rows)

-- When a chat is opened without a connection and once more with one, no READ_ACK goes out at all.
pub read_acks_lost :
    (peer_id : Text) (s : Store) (a : Acks)
    → (mark_history_read true peer_id s (mark_history_read false peer_id s a)).sent_ids ≡ a.sent_ids
unfolding mark_history_read
read_acks_lost peer_id s a =
    ap (λ (b : Acks). b.sent_ids) (marked_once false true peer_id s a)
    ∙ nothing_sent (history peer_id s) a

-- Where every row of the page that loadOlderMessages gets is on screen already, as when a whole page
-- of rows shares the oldest time: nothing is added, and no later call adds anything.
pub full_page_stops :
    (page later : ℕ) (peer_id : Text) (ts : ℕ) (s s' : Store) (v : View)
    → v.oldest_ts ≡ some ts
    → not_shown v.rows (history_before peer_id ts page s) ≡ []
    → let w = load_older page peer_id s v in (w.rows ≡ v.rows) × (load_older later peer_id s' w ≡ w)
unfolding load_older show_older
full_page_stops page later peer_id ts s s' v e n = ground (arith, e, n)
