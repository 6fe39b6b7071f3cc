-- ===== src/Inbox/Delivery/Messages.antt =====
-- Sending a new text and receiving one keep the invariant of the two pages.
use tele.Prelude.{
  ℕ, ◌≡◌, refl, sym, ap, ◌∙◌, inl, inr, Bool, true, false, not, ◌&&◌, Option, none, some, arith,
  if◌then◌else◌, Bool-cases, ◌===◌, ===_refl, ===_iff, All,
}
use tele.Bytes.{Text}
use tele.Table.{Table, lookup, put, lookup-put}
use tele.Storage.{sent, Store, save_outgoing, mark_status}
use tele.Inbox.{Watch, Page, send_new}
use tele.Inbox.Delivery.{Pair}
use tele.Inbox.Delivery.Bodies.{body_of, body_at, body_at-save_outgoing, body_at-mark_status}
use tele.Inbox.Delivery.Settled.{settled, settled-save_outgoing, mark_sent_settles}
use tele.Inbox.Delivery.Safety.{IsClaimed, IsWatched, Inv, IsClaimed-mono}

-- The storage of the sender behind the send button.
abbrev pub sent_store : Text → ℕ → Bool → Text → Text → Store → Store
sent_store id now ok peer_id text s =
    if ok
    then mark_status id sent (save_outgoing id now peer_id text s)
    else save_outgoing id now peer_id text s

pub body_at-sent_store :
    (id : Text) (now : ℕ) (ok : Bool) (peer_id text k : Text) (s : Store)
    → body_at k (sent_store id now ok peer_id text s)
      ≡ (if id === k then some text else body_at k s)
body_at-sent_store id now true peer_id text k s =
    body_at-mark_status id sent k (save_outgoing id now peer_id text s)
    ∙ body_at-save_outgoing id now peer_id text k s
body_at-sent_store id now false peer_id text k s = body_at-save_outgoing id now peer_id text k s

settled-sent_store :
    (id : Text) (now : ℕ) (ok : Bool) (peer_id text k : Text) (s : Store)
    → settled k (sent_store id now ok peer_id text s) ≡ true
    → settled k s ≡ true
settled-sent_store id now true peer_id text k s h =
    let e = mark_sent_settles id k (save_outgoing id now peer_id text s) h in
    ground (arith, settled-save_outgoing id now peer_id text k s, e)
settled-sent_store id now false peer_id text k s h =
    ground (arith, settled-save_outgoing id now peer_id text k s, h)

-- A text that is there is not that of a new id.
kept :
    (id k text t : Text) (s : Store)
    → lookup id s.messages ≡ none
    → body_at k s ≡ some t
    → (if id === k then some text else body_at k s) ≡ some t
kept id k text t s e h = elim (Bool-cases (id === k)) [
  | inl i ↦ absurd (ground (arith, ===_iff id k, i, e, h))
  | inr i ↦ rw i h
]

IsWatched-anew :
    (k : Text) (c ok : Bool) (to_id text : Text) (b : Option Text) (o : Option Watch)
    → (c ≡ true → b ≡ none)
    → IsWatched b o
    → IsWatched (if c then some text else b) (
        if ok && c
        then some (record { peer_id = to_id; text = text; retried = false; timer = true })
        else o)
IsWatched-anew k true true to_id text b o f h = refl
IsWatched-anew k true false to_id text b none f h = tt
IsWatched-anew k true false to_id text b (some v) f h = absurd (cc (f refl, h))
IsWatched-anew k false true to_id text b o f h = h
IsWatched-anew k false false to_id text b o f h = h

-- A page of the sender after the button: its storage, what it sent and what it watches.
sent-Inv :
    (id text : Text) (now : ℕ) (ok : Bool) (to_id : Text) (w : Pair) (p : Page)
    → Inv w
    → lookup id w.from.store.messages ≡ none
    → p.persists ≡ true
    → p.store ≡ sent_store id now ok to_id text w.from.store
    → (All (IsClaimed p.store) w.from.outs
        → body_at id p.store ≡ some text
        → All (IsClaimed p.store) p.outs)
    → ((k : Text)
        → lookup k p.pending_delivery ≡ (
            if ok && id === k
            then some (record { peer_id = to_id; text = text; retried = false; timer = true })
            else lookup k w.from.pending_delivery))
    → Inv (record w { from = p })
sent-Inv id text now ok to_id w p h e hp hs ho hw =
    let b =
      λ (k : Text). ap (body_at k) hs ∙ body_at-sent_store id now ok to_id text k w.from.store in
    let mono = λ (k t : Text) (q : body_at k w.from.store ≡ some t).
      b k ∙ kept id k text t w.from.store e q in
    let new : body_at id p.store ≡ some text = b id ∙ rw (===_refl id) refl in
    record {
      from_persists = hp;
      to_persists = h.to_persists;
      claimed = ho (IsClaimed-mono w.from.store p.store w.from.outs mono h.claimed) new;
      held = h.held;
      watched = λ k.
          rw (b k, hw k)
            (IsWatched-anew k (id === k) ok to_id text (body_at k w.from.store)
              (lookup k w.from.pending_delivery)
              (λ i.
                ap (λ (j : Text). body_at j w.from.store) (sym ((===_iff id k).0 i)) ∙ ap body_of e)
              (h.watched k));
      arrived = λ k t q. mono k t (h.arrived k t q);
      done = λ k q.
          h.done k
            (settled-sent_store id now ok to_id text k w.from.store (sym (ap (settled k) hs) ∙ q));
    }

module _ (id text : Text) (now : ℕ) (ok online : Bool) (to_id : Text) (p : Page) where
  send_new-persists : (send_new id text now ok online to_id p).persists ≡ p.persists
  unfolding send_new
  send_new-persists = ground arith

  pub send_new-store :
      p.persists ≡ true
      → (send_new id text now ok online to_id p).store ≡ sent_store id now ok to_id text p.store
  unfolding send_new
  send_new-store h = ground arith

  send_new-pending : (send_new id text now ok online to_id p).pending_delivery ≡ (
      if ok
      then put id
          (record { peer_id = to_id; text = text; retried = false; timer = true })
          p.pending_delivery
      else p.pending_delivery)
  unfolding send_new
  send_new-pending = ground arith

  -- What the button sends: the text, and perhaps a wake and a copy for the mailbox.
  send_new-outs :
      (s : Store)
      → All (IsClaimed s) p.outs
      → body_at id s ≡ some text
      → All (IsClaimed s) (send_new id text now ok online to_id p).outs
  unfolding send_new
  send_new-outs s h b = elim (Bool-cases (ok && p.persists && not online)) [
    | inl e ↦ elim (Bool-cases online) [
      | inl o ↦ rw (e, o) (tt, (b, h))
      | inr o ↦ rw (e, o) (tt, (tt, (b, h)))
    ]
    | inr e ↦ elim (Bool-cases online) [ inl o ↦ rw (e, o) (b, h) | inr o ↦ rw (e, o) (tt, (b, h)) ]
  ]

pending_at :
    (id k : Text) (ok : Bool) (v : Watch) (t : Table Watch)
    → lookup k (if ok then put id v t else t) ≡ (if ok && id === k then some v else lookup k t)
pending_at id k true v t = lookup-put id k v t
pending_at id k false v t = refl

pub send_new-Inv :
    (id text : Text) (now : ℕ) (ok online : Bool) (to_id : Text) (w : Pair)
    → Inv w
    → lookup id w.from.store.messages ≡ none
    → Inv (record w { from = send_new id text now ok online to_id w.from })
send_new-Inv id text now ok online to_id w h e =
    let p = send_new id text now ok online to_id w.from in
    sent-Inv id text now ok to_id w p h e
      (send_new-persists id text now ok online to_id w.from ∙ h.from_persists)
      (send_new-store id text now ok online to_id w.from h.from_persists)
      (send_new-outs id text now ok online to_id w.from p.store)
      (λ k.
        ap (lookup k) (send_new-pending id text now ok online to_id w.from)
        ∙ pending_at id k ok _ w.from.pending_delivery)
