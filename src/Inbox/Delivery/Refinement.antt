-- ===== src/Inbox/Delivery/Refinement.antt =====
-- The two pages against what the messenger promises of a text: it arrives once, as it was written.
use tele.Inbox.Delivery.Shown.{shown, shown-on_text}
use tele.Prelude.{
  ℕ, ◌+◌, ◌≡◌, refl, sym, ap, ◌∙◌, inl, inr, Bool, true, Option, none, some, arith, if◌then◌else◌,
  Bool-cases, Option-cases, ◌===◌,
}
use tele.Bytes.{Text}
use tele.Table.{lookup}
use tele.Book.{is_banned}
use tele.Storage.Flush.{flush_outbox_for}
use tele.Storage.Rows.{pending_for}
use tele.Storage.{delivered, read}
use tele.Inbox.{
  text_out, delivery_ack_out, read_ack_out, Page, on_text, on_delivered, on_read, delivery_watchdog,
}
use tele.Inbox.Delivery.Settled.{settled}
use tele.Inbox.Delivery.{
  Pair, start, In, taken, flushed, Step, sends, flushes, fires, arrives, acknowledges, reads, looks,
  Reachable, begin, next,
}
use tele.Inbox.Delivery.Bodies.{body_of, body_at, body_at-mark_status, body_at-flush_rows}
use tele.Inbox.Delivery.Safety.{is_some, Inv, In-IsClaimed, In-IsHeld}
use tele.Inbox.Delivery.Steps.{on_delivered-Inv, on_read-Inv, flushed-Inv, delivery_watchdog-Inv}
use tele.Inbox.Delivery.Messages.{body_at-sent_store, send_new-store, send_new-Inv}
use tele.Inbox.Delivery.Arrivals.{body_at-on_text, on_text-Inv}

-- The texts by their ids.
abbrev pub Texts : Type 0
Texts = Text → Option Text

abbrev pub Same : Texts → Texts → Type 0
Same f g = (k : Text) → g k ≡ f k

-- One more text.
abbrev pub Adds : Text → Text → Texts → Texts → Type 0
Adds id text f g = (k : Text) → g k ≡ (if id === k then some text else f k)

-- What a user has: the texts by their ids, and how many were shown to him.
pub record Log : Type 0 where
  pub texts : Texts
  pub shown_count : ℕ

-- The specification, on the texts that were written and the log of the receiver: nothing happens and
-- nothing is shown, a text is written under a new id and nothing is shown, or a text that was written
-- and has not arrived arrives and is shown.
pub data SpecStep (wrote : Texts) (got : Log) (wrote' : Texts) (got' : Log) : Type 0 where
  idle :
      Same wrote wrote'
      → Same got.texts got'.texts
      → got'.shown_count ≡ got.shown_count
      → SpecStep wrote got wrote' got'
  write :
      (id text : Text)
      → wrote id ≡ none
      → Adds id text wrote wrote'
      → Same got.texts got'.texts
      → got'.shown_count ≡ got.shown_count
      → SpecStep wrote got wrote' got'
  arrive :
      (id text : Text)
      → wrote id ≡ some text
      → got.texts id ≡ none
      → Same wrote wrote'
      → Adds id text got.texts got'.texts
      → got'.shown_count ≡ got.shown_count + 1
      → SpecStep wrote got wrote' got'

abbrev pub texts_of : Page → Texts
texts_of p k = body_at k p.store

-- What a page has received of a peer, and how many texts of the peer it has shown.
abbrev pub log_of : Text → Page → Log
log_of k p = record { texts = texts_of p; shown_count = shown k p }

module _ (from_id to_id : Text) where
  start-Inv : Inv start
  start-Inv = record {
    from_persists = refl;
    to_persists = refl;
    claimed = tt;
    held = tt;
    watched = λ k. unfold lookup in tt;
    arrived = λ k t e. absurd (unfold lookup in cc e);
    done = λ k e. absurd (unfold lookup in cc e);
  }

  step-Inv : (v w : Pair) → Step from_id to_id v w → Inv v → Inv w
  step-Inv _ _ (sends id text now ok online v e) h = send_new-Inv id text now ok online to_id v h e
  step-Inv _ _ (flushes ok now v) h = flushed-Inv from_id to_id ok now v h
  step-Inv _ _ (fires connected id v) h = delivery_watchdog-Inv connected id v h
  step-Inv _ _ (arrives id text now v i) h = on_text-Inv from_id to_id id text now v h i
  step-Inv _ _ (acknowledges id v i) h =
      on_delivered-Inv to_id id v h
        (In-IsHeld v.to.store (delivery_ack_out from_id id) v.to.outs h.held i)
  step-Inv _ _ (reads id v i) h =
      on_read-Inv to_id id v h (In-IsHeld v.to.store (read_ack_out from_id id) v.to.outs h.held i)
  step-Inv _ _ (looks c v) h = record {
    from_persists = h.from_persists;
    to_persists = h.to_persists;
    claimed = h.claimed;
    held = h.held;
    watched = h.watched;
    arrived = h.arrived;
    done = h.done;
  }

  Reachable-Inv : (w : Pair) → Reachable from_id to_id w → Inv w
  Reachable-Inv _ begin = start-Inv
  Reachable-Inv _ (next v w r s) = step-Inv v w s (Reachable-Inv v r)

  body_at-watchdog :
      (connected : Bool) (id k : Text) (p : Page)
      → body_at k (delivery_watchdog connected id p).store ≡ body_at k p.store
  unfolding delivery_watchdog
  body_at-watchdog connected id k p = ground arith

  -- A text that comes in: it arrives, or nothing happens.
  arrives_refines :
      (id text : Text) (now : ℕ) (w : Pair)
      → Inv w
      → In (text_out to_id id text) w.from.outs
      → SpecStep
          (texts_of w.from)
          (log_of from_id w.to)
          (texts_of w.from)
          (log_of from_id (on_text from_id id text now w.to))
  arrives_refines id text now w h i =
      let b = λ (k : Text). body_at-on_text from_id id text now w.to k h.to_persists in
      let c = shown-on_text from_id id text now w.to h.to_persists in
      elim (Bool-cases (is_banned from_id w.to.blacklist)) [
        | inl f ↦ idle (λ k. refl) (λ k. b k ∙ rw f refl) (c ∙ rw f refl)
        | inr f ↦ elim (Option-cases (body_at id w.to.store)) [
          | inl e ↦
              arrive id text (In-IsClaimed w.from.store to_id id text w.from.outs h.claimed i) e
                (λ k. refl) (λ k. b k ∙ rw (f, e) refl) (c ∙ rw (f, e) refl)
          | inr (o, e) ↦ idle (λ k. refl) (λ k. b k ∙ rw (f, e) refl) (c ∙ rw (f, e) refl)
        ]
      ]

  step_refines :
      (v w : Pair)
      → Step from_id to_id v w
      → Inv v
      → SpecStep (texts_of v.from) (log_of from_id v.to) (texts_of w.from) (log_of from_id w.to)
  step_refines _ _ (sends id text now ok online v e) h =
      write id text (ap body_of e)
        (λ k.
          ap (body_at k) (send_new-store id text now ok online to_id v.from h.from_persists)
          ∙ body_at-sent_store id now ok to_id text k v.from.store)
        (λ k. refl) refl
  step_refines _ _ (flushes ok now v) h =
      idle
        (λ k.
          unfold flushed flush_outbox_for in
          body_at-flush_rows (taken ok v.from.store) now (pending_for to_id v.from.store) k
            v.from.store)
        (λ k. refl) refl
  step_refines _ _ (fires connected id v) h =
      idle (λ k. body_at-watchdog connected id k v.from) (λ k. refl) refl
  step_refines _ _ (arrives id text now v i) h = arrives_refines id text now v h i
  step_refines _ _ (acknowledges id v i) h =
      idle (λ k. unfold on_delivered in body_at-mark_status id delivered k v.from.store) (λ k. refl)
        refl
  step_refines _ _ (reads id v i) h =
      idle (λ k. unfold on_read in body_at-mark_status id read k v.from.store) (λ k. refl) refl
  step_refines _ _ (looks c v) h = idle (λ k. refl) (λ k. refl) refl

  -- Sender and receiver, both with saved chats, and a relay between them that loses, repeats, delays
  -- and reorders do what the specification allows: in every reachable state, each step of either page,
  -- an arrival, a retry, a timeout or an acknowledgement, is a step of the specification on the texts
  -- and on the number of texts that the receiver has shown, as unread or with a read mark. So each text
  -- arrives and is shown at most once, only if it was written, and as it was written.
  pub delivery_refines :
      (v w : Pair)
      → Reachable from_id to_id v
      → Step from_id to_id v w
      → SpecStep (texts_of v.from) (log_of from_id v.to) (texts_of w.from) (log_of from_id w.to)
  delivery_refines v w r s = step_refines v w s (Reachable-Inv v r)

  same_text :
      (k text : Text) (w : Pair)
      → Inv w
      → body_at k w.from.store ≡ some text
      → is_some (body_at k w.to.store) ≡ true
      → body_at k w.to.store ≡ some text
  same_text k text w h e s = elim (Option-cases (body_at k w.to.store)) [
    | inl n ↦ absurd (cc (ap is_some n, s))
    | inr (t, n) ↦ n ∙ sym (h.arrived k t n) ∙ e
  ]

  -- In every reachable state, a text that the sender takes for done, because its status is `delivered`
  -- or `read` or because the retry queue has no entry for it, is stored by the receiver as it was
  -- written. So no text that has not arrived leaves the retry queue.
  pub done_has_arrived :
      (w : Pair) (id text : Text)
      → Reachable from_id to_id w
      → body_at id w.from.store ≡ some text
      → settled id w.from.store ≡ true
      → body_at id w.to.store ≡ some text
  done_has_arrived w id text r e s =
      let h = Reachable-Inv w r in same_text id text w h e (h.done id s)
