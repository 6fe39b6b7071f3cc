-- ===== src/Inbox/Delivery/Retry.antt =====
-- What one retry does with a relay that delivers (`web/app.js`).
use tele.Storage.Flush.{flush_outbox_for}
use tele.Inbox.Delivery.Refinement.{done_has_arrived}
use tele.Prelude.{
  ℕ, ◌≡◌, refl, sym, ap, ◌∙◌, inl, inr, Bool, true, false, some, List, [], ◌∷◌, ◌++◌, arith,
  if◌then◌else◌, Bool-cases, Option-cases, ===_refl, All,
}
use tele.Bytes.{Text}
use tele.Table.{lookup, table_laws}
use tele.Storage.{delivered, Message, OutboxEntry, Store, is_file_ref, save_incoming, mark_status}
use tele.Storage.Rows.{Row, is_pending_for, pending_for}
use tele.Storage.Windows.{Has, pending_for_complete}
use tele.Book.{is_banned}
use tele.Inbox.{
  Out, text_out, delivery_ack_out, Page, put_out, is_current, show_text, on_text, on_delivered,
}
use tele.Inbox.Delivery.{
  Pair, In, taken, resent, flushed, Step, sends, flushes, fires, arrives, acknowledges, reads,
  looks, Reachable, begin, next,
}
use tele.Inbox.Delivery.Bodies.{body_of, body_at, body_at-mark_status, body_at-flush_rows}
use tele.Inbox.Delivery.Settled.{settled}

-- What is shown comes after the acknowledgement.
pub acknowledged :
    (peer_id msg_id : Text) (fresh : Bool) (p : Page)
    → let a = put_out (delivery_ack_out peer_id msg_id) p in
      In (delivery_ack_out peer_id msg_id) (if fresh then show_text peer_id msg_id a else a).outs
unfolding show_text
acknowledged peer_id msg_id true p = elim (Bool-cases (is_current peer_id p.current)) [
  | inl e ↦ rw (e, show_text) (inr (inl refl))
  | inr e ↦ rw (e, show_text) (inl refl)
]
acknowledged peer_id msg_id false p = inl refl

on_text_acknowledges :
    (peer_id id text : Text) (now : ℕ) (p : Page)
    → is_banned peer_id p.blacklist ≡ false
    → In (delivery_ack_out peer_id id) (on_text peer_id id text now p).outs
unfolding on_text
on_text_acknowledges peer_id id text now p e =
    let saved = save_incoming peer_id id text now now p.store in
    rw (e, on_text)
      (acknowledged peer_id id (if p.persists then saved.0 else true)
        (record p { store = if p.persists then saved.1 else p.store }))

on_text-blacklist :
    (peer_id id text : Text) (now : ℕ) (p : Page)
    → (on_text peer_id id text now p).blacklist ≡ p.blacklist
unfolding on_text show_text
on_text-blacklist peer_id id text now p = ground arith

pub In-append : (o : Out) (xs ys : List Out) → In o xs → In o (xs ++ ys)
In-append o [] ys h = absurd h
In-append o (x ∷ xs) ys (inl e) = inl e
In-append o (x ∷ xs) ys (inr h) = inr (In-append o xs ys h)

delivered_settles :
    (id t : Text) (s : Store)
    → body_at id s ≡ some t
    → settled id (mark_status id delivered s) ≡ true
unfolding mark_status
delivered_settles id t s h = elim (Option-cases (lookup id s.messages)) [
  | inl e ↦ absurd (ground (arith, e, h))
  | inr (m, e) ↦ rw (e, mark_status) (simp table_laws (simp ===_refl))
]

module _ (from_id to_id : Text) where
  -- A text of the queue is among those that go out, if none before it fails.
  pub resent_has :
      (ok : Text → Bool) (id : Text) (m : Message) (rows : List Row)
      → All (λ r. ok r.0 ≡ true) rows
      → Has (id, m) rows
      → is_file_ref m.body ≡ false
      → In (text_out to_id id m.body) (resent from_id to_id ok rows)
  unfolding resent
  resent_has ok id m [] t h f = absurd h
  resent_has ok id m (r ∷ rows) t (inl e) f =
      let up : ok id ≡ true = ap (λ (x : Row). ok x.0) (sym e) ∙ t.0 in
      rw (e, resent, f, up) (inl refl)
  resent_has ok id m (r ∷ rows) t (inr h) f = elim (Bool-cases (is_file_ref r.1.body)) [
    | inl g ↦ rw (resent, g, t.0) (resent_has ok id m rows t.1 h f)
    | inr g ↦ rw (resent, g, t.0) (inr (resent_has ok id m rows t.1 h f))
  ]

  step_blacklist : (v w : Pair) → Step from_id to_id v w → v.to.blacklist ≡ w.to.blacklist
  step_blacklist _ _ (sends id text now ok online v e) = refl
  step_blacklist _ _ (flushes ok now v) = refl
  step_blacklist _ _ (fires connected id v) = refl
  step_blacklist _ _ (arrives id text now v i) = sym (on_text-blacklist from_id id text now v.to)
  step_blacklist _ _ (acknowledges id v i) = refl
  step_blacklist _ _ (reads id v i) = refl
  step_blacklist _ _ (looks c v) = refl

  Reachable-blacklist : (w : Pair) → Reachable from_id to_id w → w.to.blacklist ≡ []
  Reachable-blacklist _ begin = refl
  Reachable-blacklist w (next v _ r st) = sym (step_blacklist v w st) ∙ Reachable-blacklist v r

  -- In every reachable state, a queued text to the peer that is no file reference gets through with one
  -- retry on an open connection, if no message of the queue fails there, that is, if each that begins
  -- with `%` has the blob of its file stored, and if the relay then delivers the text and its
  -- acknowledgement once: the receiver has it as it was written, and the sender takes it for done.
  pub retry_delivers :
      (w : Pair) (id : Text) (m : Message) (q : OutboxEntry) (now : ℕ)
      → Reachable from_id to_id w
      → lookup id w.from.store.messages ≡ some m
      → lookup id w.from.store.outbox ≡ some q
      → is_pending_for to_id (some m) ≡ true
      → is_file_ref m.body ≡ false
      → All (λ r. taken (λ k. true) w.from.store r.0 ≡ true) (pending_for to_id w.from.store)
      → let w1 = record w { from = flushed from_id to_id (λ k. true) now w.from } in
        let w2 = record w1 { to = on_text from_id id m.body now w1.to } in
        let w3 = record w2 { from = on_delivered to_id id w2.from } in
        Reachable from_id to_id w3
        × (settled id w3.from.store ≡ true)
        × (body_at id w3.to.store ≡ some m.body)
  retry_delivers w id m q now r e o b f t =
      let took = taken (λ k. true) w.from.store in
      let rows = pending_for to_id w.from.store in
      let goes_out =
        In-append (text_out to_id id m.body) (resent from_id to_id took rows) w.from.outs
          (resent_has took id m rows t (pending_for_complete to_id id q m w.from.store o e b) f) in
      let w1 = record w { from = flushed from_id to_id (λ k. true) now w.from } in
      let r1 = next w w1 r (flushes (λ k. true) now w) in
      let w2 = record w1 { to = on_text from_id id m.body now w1.to } in
      let r2 = next w1 w2 r1 (arrives id m.body now w1 (unfold flushed in goes_out)) in
      let free = ap (is_banned from_id) (Reachable-blacklist w r) in
      let acked = on_text_acknowledges from_id id m.body now w.to (unfold is_banned in free) in
      let w3 = record w2 { from = on_delivered to_id id w2.from } in
      let r3 = next w2 w3 r2 (acknowledges id w2 acked) in
      let text : body_at id w1.from.store ≡ some m.body =
        unfold flushed flush_outbox_for in
        body_at-flush_rows took now rows id w.from.store ∙ ap body_of e in
      let text3 : body_at id w3.from.store ≡ some m.body =
        unfold on_delivered in body_at-mark_status id delivered id w1.from.store ∙ text in
      let over : settled id w3.from.store ≡ true =
        unfold on_delivered in delivered_settles id m.body w1.from.store text in
      (r3, over, done_has_arrived from_id to_id w3 id m.body r3 text3 over)
