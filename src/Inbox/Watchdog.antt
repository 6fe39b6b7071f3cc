-- ===== src/Inbox/Watchdog.antt =====
-- The delivery watchdog of `web/app.js`: how often a message is sent again.
use tele.Prelude.{
  ℕ, ◌+◌, ◌-◌, ◌≤◌, ◌≡◌, refl, inl, inr, Bool, true, false, ◌&&◌, Option, none, some, List, [], ◌∷◌,
  arith, if◌then◌else◌, Bool-cases, Option-cases, ◌===◌, ===_iff,
}
use tele.Bytes.{Text}
use tele.Table.{lookup, lookup-put, lookup-delete, lookup-delete_self}
use tele.Inbox.{Out, text_out, Watch, Page, on_delivered, delivery_watchdog}

-- How often the text of a message was sent.
unfoldable pub times_sent : Text → List Out → ℕ
times_sent id [] = 0
times_sent id (text_out peer_id j text ∷ outs) =
    if j === id then times_sent id outs + 1 else times_sent id outs
times_sent id (_ ∷ outs) = times_sent id outs

-- How often the watchdog may still send it.
unfoldable pub budget : Text → Page → ℕ
budget id p = elim (lookup id p.pending_delivery) [ none ↦ 0 | some w ↦ if w.retried then 0 else 1 ]

-- A timeout that fires, with the state of the connection, or an acknowledgement.
pub data Event : Type 0 where
  fired : Bool → Text → Event
  acked : Text → Text → Event

unfoldable pub run : List Event → Page → Page
run [] p = p
run (fired connected id ∷ es) p = run es (delivery_watchdog connected id p)
run (acked peer_id id ∷ es) p = run es (on_delivered peer_id id p)

fired_spends :
    (connected : Bool) (j id : Text) (p : Page)
    → times_sent id (delivery_watchdog connected j p).outs
        + budget id (delivery_watchdog connected j p)
      ≤ times_sent id p.outs + budget id p
unfolding delivery_watchdog budget times_sent
fired_spends connected j id p = elim (Option-cases (lookup j p.pending_delivery)) [
  | inl e ↦ rw (e, delivery_watchdog) (omega arith)
  | inr (w, e) ↦ elim (Bool-cases connected) [
    | inl c ↦ elim (Bool-cases w.retried) [
      | inl r ↦
          rw (e, delivery_watchdog, c, r) (grind (arith, lookup-delete j id p.pending_delivery))
      | inr r ↦
          rw (e, delivery_watchdog, c, r)
            (grind (
              arith,
              lookup-put j id (record w { retried = true; timer = true }) p.pending_delivery,
              ===_iff j id,
              e,
              r,
            ))
    ]
    | inr c ↦
        rw (e, delivery_watchdog, c)
          (grind (
            arith,
            lookup-put j id (record w { timer = false }) p.pending_delivery,
            ===_iff j id,
            e,
          ))
  ]
]

acked_spends :
    (peer_id j id : Text) (p : Page)
    → times_sent id (on_delivered peer_id j p).outs + budget id (on_delivered peer_id j p)
      ≤ times_sent id p.outs + budget id p
unfolding on_delivered budget
acked_spends peer_id j id p = grind (arith, lookup-delete j id p.pending_delivery)

run_spends :
    (es : List Event) (id : Text) (p : Page)
    → times_sent id (run es p).outs + budget id (run es p) ≤ times_sent id p.outs + budget id p
unfolding run
run_spends [] id p = omega arith
run_spends (fired connected j ∷ es) id p =
    let h = run_spends es id (delivery_watchdog connected j p) in
    let h' = fired_spends connected j id p in omega arith
run_spends (acked peer_id j ∷ es) id p =
    let h = run_spends es id (on_delivered peer_id j p) in
    let h' = acked_spends peer_id j id p in omega arith

budget_le : (id : Text) (p : Page) → budget id p ≤ 1
unfolding budget
budget_le id p = ground arith

budget-on_delivered : (peer_id id : Text) (p : Page) → budget id (on_delivered peer_id id p) ≡ 0
unfolding on_delivered budget
budget-on_delivered peer_id id p = rw (budget, lookup-delete_self id p.pending_delivery) refl

-- Whatever timeouts fire and whatever is acknowledged, in any order, a message is sent again at most
-- once; and once its acknowledgement has been handled, it is not sent again at all.
pub resent_at_most_once :
    (es fs : List Event) (peer_id id : Text) (p : Page)
    → let q = run es p in
      let r = run fs (on_delivered peer_id id q) in
      (times_sent id q.outs ≤ times_sent id p.outs + 1)
      × (times_sent id r.outs ≤ times_sent id q.outs)
resent_at_most_once es fs peer_id id p =
    let q = run es p in
    let q' = on_delivered peer_id id q in
    let h0 = run_spends es id p in
    let h1 = budget_le id p in
    let h2 = run_spends fs id q' in
    let h3 = budget-on_delivered peer_id id q in
    let h4 : times_sent id q'.outs ≡ times_sent id q.outs = unfold on_delivered in refl in
    (omega arith, omega arith)

-- How many timeouts of a watch can still fire with the connection up.
unfoldable pub rounds : Option Watch → ℕ
rounds none = 0
rounds (some w) = if w.retried then 1 else 2

-- The timeouts of a message that fire with the connection up.
unfoldable pub fires : Text → List Event → ℕ
fires id [] = 0
fires id (fired connected j ∷ es) =
    let n = fires id es in if connected && j === id then n + 1 else n
fires id (acked peer_id j ∷ es) = fires id es

fired_ends :
    (connected : Bool) (j id : Text) (p : Page)
    → rounds (lookup id (delivery_watchdog connected j p).pending_delivery)
      ≤ rounds (lookup id p.pending_delivery) - (if connected && j === id then 1 else 0)
unfolding delivery_watchdog rounds
fired_ends connected j id p = elim (Option-cases (lookup j p.pending_delivery)) [
  | inl e ↦ rw (e, delivery_watchdog) (grind (arith, ===_iff j id, e))
  | inr (w, e) ↦ elim (Bool-cases connected) [
    | inl c ↦ elim (Bool-cases w.retried) [
      | inl r ↦
          rw (e, delivery_watchdog, c, r)
            (grind (arith, lookup-delete j id p.pending_delivery, ===_iff j id, e, r))
      | inr r ↦
          rw (e, delivery_watchdog, c, r)
            (grind (
              arith,
              lookup-put j id (record w { retried = true; timer = true }) p.pending_delivery,
              ===_iff j id,
              e,
              r,
            ))
    ]
    | inr c ↦
        rw (e, delivery_watchdog, c)
          (grind (
            arith,
            lookup-put j id (record w { timer = false }) p.pending_delivery,
            ===_iff j id,
            e,
          ))
  ]
]

acked_ends :
    (peer_id j id : Text) (p : Page)
    → rounds (lookup id (on_delivered peer_id j p).pending_delivery)
      ≤ rounds (lookup id p.pending_delivery)
unfolding on_delivered rounds
acked_ends peer_id j id p = grind (arith, lookup-delete j id p.pending_delivery)

run_ends :
    (es : List Event) (id : Text) (p : Page)
    → rounds (lookup id (run es p).pending_delivery)
      ≤ rounds (lookup id p.pending_delivery) - fires id es
unfolding run fires
run_ends [] id p = omega arith
run_ends (fired connected j ∷ es) id p =
    let h = run_ends es id (delivery_watchdog connected j p) in
    let h' = fired_ends connected j id p in ground arith
run_ends (acked peer_id j ∷ es) id p =
    let h = run_ends es id (on_delivered peer_id j p) in
    let h' = acked_ends peer_id j id p in omega arith

no_rounds : (w : Option Watch) → rounds w ≤ 0 → w ≡ none
unfolding rounds
no_rounds none h = refl
no_rounds (some w) h = absurd (ground arith)

rounds_le : (w : Option Watch) → rounds w ≤ 2
unfolding rounds
rounds_le w = ground arith

-- The watch of a message ends: after two timeouts of it that fire with the connection up, among any
-- other timeouts and acknowledgements, the message is no longer watched.
pub watch_ends :
    (es : List Event) (id : Text) (p : Page)
    → 2 ≤ fires id es
    → lookup id (run es p).pending_delivery ≡ none
watch_ends es id p h =
    let e0 = run_ends es id p in
    let e1 = rounds_le (lookup id p.pending_delivery) in
    no_rounds (lookup id (run es p).pending_delivery) (omega arith)
