-- ===== src/Inbox/Delivery/Steps.antt =====
-- Every step of the two pages keeps the invariant.
use mathlib.Core.Path.{subst}
use tele.Prelude.{
  ℕ, ◌≡◌, refl, sym, ◌∙◌, inl, inr, Bool, true, false, Option, none, some, List, [], ◌∷◌, ◌++◌,
  if◌then◌else◌, Bool-cases, Option-cases, ◌===◌, ===_iff, All,
}
use tele.Bytes.{Text}
use tele.Table.{Table, lookup, put, delete, lookup-put, lookup-delete}
use tele.Storage.{Status, delivered, read, Store, is_file_ref, mark_status}
use tele.Storage.Rows.{Row, pending_for}
use tele.Storage.Flush.{flush_rows, flush_outbox_for}
use tele.Inbox.{
  Out, text_out, introduce_out, Watch, Page, put_out, on_delivered, on_read, delivery_watchdog,
}
use tele.Inbox.Delivery.{Pair, taken, resent, flushed}
use tele.Inbox.Delivery.Bodies.{
  body_at, body_at-mark_status, body_at-flush_rows, IsStored, pending_for-IsStored,
}
use tele.Inbox.Delivery.Settled.{settled, mark_final_settles, flush_rows_settles}
use tele.Inbox.Delivery.Safety.{is_some, IsClaimed, IsWatched, Inv, IsClaimed-mono, same_bodies-Inv}

IsClaimed-after_mark :
    (id : Text) (st : Status) (p : Page)
    → All (IsClaimed p.store) p.outs
    → All (IsClaimed (mark_status id st p.store)) p.outs
IsClaimed-after_mark id st p h =
    IsClaimed-mono p.store (mark_status id st p.store) p.outs
      (λ k t e. body_at-mark_status id st k p.store ∙ e) h

-- A status for a message that the receiver has.
settle_held :
    (id : Text) (st : Status) (k : Text) (w : Pair)
    → Inv w
    → is_some (body_at id w.to.store) ≡ true
    → settled k (mark_status id st w.from.store) ≡ true
    → is_some (body_at k w.to.store) ≡ true
settle_held id st k w h hs e = elim (Bool-cases (id === k)) [
  | inl i ↦ subst (λ (j : Text). is_some (body_at j w.to.store) ≡ true) ((===_iff id k).0 i) hs
  | inr n ↦ h.done k (sym (mark_final_settles id st k w.from.store n) ∙ e)
]

unwatched :
    (b : Option Text) (o : Option Watch) (c : Bool)
    → IsWatched b o
    → IsWatched b (if c then none else o)
unwatched b o true h = tt
unwatched b o false h = h

-- The entry of a watch is written anew, with the same text.
rewatched :
    (id k : Text) (v v' : Watch) (s : Store) (t : Table Watch)
    → lookup id t ≡ some v
    → v'.text ≡ v.text
    → ((j : Text) → IsWatched (body_at j s) (lookup j t))
    → IsWatched (body_at k s) (lookup k (put id v' t))
rewatched id k v v' s t e f h = elim (Bool-cases (id === k)) [
  | inl i ↦
      let b : body_at id s ≡ some v.text = subst (IsWatched (body_at id s)) e (h id) in
      rw (lookup-put id k v' t, i)
        (rw f (subst (λ (j : Text). body_at j s ≡ some v.text) ((===_iff id k).0 i) b))
  | inr i ↦ rw (lookup-put id k v' t, i) (h k)
]

pub on_delivered-Inv :
    (peer_id id : Text) (w : Pair)
    → Inv w
    → is_some (body_at id w.to.store) ≡ true
    → Inv (record w { from = on_delivered peer_id id w.from })
on_delivered-Inv peer_id id w h hs =
    unfold on_delivered in
    same_bodies-Inv w (on_delivered peer_id id w.from) h h.from_persists
      (λ k. body_at-mark_status id delivered k w.from.store)
      (IsClaimed-after_mark id delivered w.from h.claimed)
      (λ k.
        rw
          (
            body_at-mark_status id delivered k w.from.store,
            lookup-delete id k w.from.pending_delivery,
          )
          (unwatched (body_at k w.from.store) (lookup k w.from.pending_delivery) (id === k)
            (h.watched k)))
      (λ k e. settle_held id delivered k w h hs e)

pub on_read-Inv :
    (peer_id id : Text) (w : Pair)
    → Inv w
    → is_some (body_at id w.to.store) ≡ true
    → Inv (record w { from = on_read peer_id id w.from })
on_read-Inv peer_id id w h hs =
    unfold on_read in
    same_bodies-Inv w (on_read peer_id id w.from) h h.from_persists
      (λ k. body_at-mark_status id read k w.from.store)
      (IsClaimed-after_mark id read w.from h.claimed)
      (λ k. rw (body_at-mark_status id read k w.from.store) (h.watched k))
      (λ k e. settle_held id read k w h hs e)

-- A retry claims the texts of the queue.
resent-IsClaimed :
    (from_id to_id : Text) (ok : Text → Bool) (rows : List Row) (s : Store) (outs : List Out)
    → All (IsStored s) rows
    → All (IsClaimed s) outs
    → All (IsClaimed s) (resent from_id to_id ok rows ++ outs)
unfolding resent
resent-IsClaimed from_id to_id ok [] s outs h ho = ho
resent-IsClaimed from_id to_id ok (r ∷ rows) s outs h ho = elim (Bool-cases (ok r.0)) [
  | inl e ↦ elim (Bool-cases (is_file_ref r.1.body)) [
    | inl f ↦ rw (e, f) (resent-IsClaimed from_id to_id ok rows s outs h.1 ho)
    | inr f ↦ rw (e, f) (h.0, resent-IsClaimed from_id to_id ok rows s outs h.1 ho)
  ]
  | inr e ↦ rw e ho
]

pub flushed-Inv :
    (from_id to_id : Text) (ok : Text → Bool) (now : ℕ) (w : Pair)
    → Inv w
    → Inv (record w { from = flushed from_id to_id ok now w.from })
flushed-Inv from_id to_id ok now w h =
    let s = w.from.store in
    let rows = pending_for to_id s in
    let took = taken ok s in
    let body = λ (k : Text). body_at-flush_rows took now rows k s in
    unfold flushed flush_outbox_for in
    same_bodies-Inv w (flushed from_id to_id ok now w.from) h h.from_persists body
      (IsClaimed-mono s (flush_rows took now rows s) (resent from_id to_id took rows ++ w.from.outs)
        (λ k t e. body k ∙ e)
        (resent-IsClaimed from_id to_id took rows s w.from.outs (pending_for-IsStored to_id s)
          h.claimed))
      (λ k. rw (body k) (h.watched k)) (λ k e. h.done k (flush_rows_settles took now rows k s e))

pub delivery_watchdog-Inv :
    (connected : Bool) (id : Text) (w : Pair)
    → Inv w
    → Inv (record w { from = delivery_watchdog connected id w.from })
delivery_watchdog-Inv connected id w h = elim (Option-cases (lookup id w.from.pending_delivery)) [
  | inl e ↦ unfold delivery_watchdog in rw (e, delivery_watchdog) h
  | inr (v, e) ↦ elim (Bool-cases connected) [
    | inl c ↦ elim (Bool-cases v.retried) [
      | inl r ↦
          unfold delivery_watchdog in
          rw (e, delivery_watchdog, c, r)
            (same_bodies-Inv w
              (record w.from { pending_delivery = delete id w.from.pending_delivery }) h
              h.from_persists (λ k. refl) h.claimed
              (λ k. rw (lookup-delete id k w.from.pending_delivery) (
                unwatched (body_at k w.from.store) (lookup k w.from.pending_delivery) (id === k)
                  (h.watched k)))
              h.done)
      | inr r ↦
          let v' = record v { retried = true; timer = true } in
          let b : body_at id w.from.store ≡ some v.text =
            subst (IsWatched (body_at id w.from.store)) e (h.watched id) in
          unfold delivery_watchdog in
          rw (e, delivery_watchdog, c, r)
            (same_bodies-Inv w
              (put_out (text_out v.peer_id id v.text) (
                put_out (introduce_out v.peer_id)
                  (record w.from { pending_delivery = put id v' w.from.pending_delivery })))
              h h.from_persists (λ k. refl) (b, (tt, h.claimed))
              (λ k. rewatched id k v v' w.from.store w.from.pending_delivery e refl h.watched)
              h.done)
    ]
    | inr c ↦
        let v' = record v { timer = false } in
        unfold delivery_watchdog in
        rw (e, delivery_watchdog, c)
          (same_bodies-Inv w
            (record w.from { pending_delivery = put id v' w.from.pending_delivery }) h
            h.from_persists (λ k. refl) h.claimed
            (λ k. rewatched id k v v' w.from.store w.from.pending_delivery e refl h.watched) h.done)
  ]
]
