-- ===== src/Mailbox/Drain.antt =====
-- The loop that fetches what peers left in the mailbox: fetchMailbox and the DELIVERY and EMPTY
-- branches of onMailboxMessage in `web/app.js`, with a mailbox as the comments there describe it: it
-- answers each FETCH_NEXT once, with the oldest envelope that it holds and gives away by that, or with
-- EMPTY. Nothing is lost on the way.
use mathlib.Core.Path.{subst}
use tele.Prelude.{
  ℕ, zero, suc, ◌+◌, ◌<◌, ◌≡◌, refl, sym, ap, ◌∙◌, ◌⊎◌, inl, inr, Bool, true, false, not, ◌||◌,
  Option, none, some, List, [], ◌∷◌, ◌++◌, append-nil, append_assoc, arith, ltb, if◌then◌else◌,
  Bool-cases, length,
}
use tele.Bytes.{Bytes}
use tele.Mailbox.{
  Checks, Effect, send_fetch, reinjected, warned, Mailbox, new_mailbox, emit, fetch_mailbox,
  is_empty, delivery, on_mailbox_message,
}

-- The calls of mailboxFetchNext.
unfoldable pub fetches : List Effect → ℕ
fetches [] = 0
fetches (send_fetch ∷ o) = fetches o + 1
fetches (_ ∷ o) = fetches o

-- The frames that were handed on, the first one first.
unfoldable pub handed : List Effect → List Bytes
handed [] = []
handed (reinjected frame ∷ o) = handed o ++ (frame ∷ [])
handed (_ ∷ o) = handed o

-- Envelopes that parse, with their frames; `none` is one that does not.
unfoldable pub parsed : List (Option Bytes) → List Bytes
parsed [] = []
parsed (none ∷ fs) = parsed fs
parsed (some frame ∷ fs) = frame ∷ parsed fs

-- The page and its mailbox, which holds a queue and has answered so many requests.
pub record Link : Type 0 where
  pub page : Mailbox
  pub queue : List (Option Bytes)
  pub answered : ℕ

abbrev pub new_link : Link
new_link = record { page = new_mailbox; queue = []; answered = 0 }

-- The answer to a request, with what the queue holds.
unfoldable pub served : Bool → List (Option Bytes) → Link → Link
unfolding on_mailbox_message
served throws [] w = record {
  page = on_mailbox_message is_empty w.page;
  queue = [];
  answered = w.answered + 1;
}
served throws (f ∷ fs) w = record {
  page = on_mailbox_message (delivery f true throws) w.page;
  queue = fs;
  answered = w.answered + 1;
}

-- The mailbox answers if a request is open; `throws` is of the next mailboxFetchNext.
unfoldable pub answer : Bool → Link → Link
unfolding served fetches
answer throws w = if ltb w.answered (fetches w.page.out) then served throws w.queue w else w

-- A peer leaves an envelope, the page calls fetchMailbox, or the mailbox answers.
pub data Event : Type 0 where
  left : Option Bytes → Event
  fetched : Checks → Bool → Event
  answers : Bool → Event

unfoldable pub step : Event → Link → Link
unfolding fetch_mailbox answer
step (left f) w = record w { queue = w.queue ++ (f ∷ []) }
step (fetched t throws) w = record w { page = fetch_mailbox t throws w.page }
step (answers throws) w = answer throws w

unfoldable pub run : List Event → Link → Link
unfolding step
run [] w = w
run (e ∷ es) w = run es (step e w)

-- What peers left.
unfoldable pub left_by : List Event → List (Option Bytes)
left_by [] = []
left_by (left f ∷ es) = f ∷ left_by es
left_by (_ ∷ es) = left_by es

-- So many answers, and nothing throws.
unfoldable pub answered_times : ℕ → Link → Link
unfolding answer
answered_times zero w = w
answered_times (suc n) w = answered_times n (answer false w)

abbrev open_requests : Bool → ℕ
open_requests true = 1
open_requests false = 0

-- A request is open exactly while the guard is set, and no envelope is lost, doubled or overtaken.
record Inv (sofar : List (Option Bytes)) (w : Link) : Type 0 where
  pending : fetches w.page.out ≡ w.answered + open_requests w.page.fetching
  whole : handed w.page.out ++ parsed w.queue ≡ parsed sofar

parsed-append : (fs gs : List (Option Bytes)) → parsed (fs ++ gs) ≡ parsed fs ++ parsed gs
unfolding parsed
parsed-append [] gs = refl
parsed-append (none ∷ fs) gs = parsed-append fs gs
parsed-append (some frame ∷ fs) gs = ap (λ l. frame ∷ l) (parsed-append fs gs)

left-Inv :
    (sofar : List (Option Bytes)) (f : Option Bytes) (w : Link)
    → Inv sofar w
    → Inv (sofar ++ (f ∷ [])) (step (left f) w)
unfolding step
left-Inv sofar f w h = record {
  pending = h.pending;
  whole =
      ap (λ l. handed w.page.out ++ l) (parsed-append w.queue (f ∷ []))
      ∙ sym (append_assoc (handed w.page.out) (parsed w.queue) (parsed (f ∷ [])))
      ∙ ap (λ l. l ++ parsed (f ∷ [])) h.whole
      ∙ sym (parsed-append sofar (f ∷ []));
}

fetch_mailbox-cases :
    (t : Checks) (throws : Bool) (s : Mailbox)
    → (fetch_mailbox t throws s ≡ s)
      ⊎ ((s.fetching ≡ false) × (fetch_mailbox t throws s ≡ emit warned s))
      ⊎ ((s.fetching ≡ false)
          × (fetch_mailbox t throws s ≡ emit send_fetch (record s { fetching = true })))
unfolding fetch_mailbox
fetch_mailbox-cases t throws s =
    elim (Bool-cases (not t.enabled || not t.has_mailbox || s.fetching || not t.connected)) [
      | inl e ↦ inl (rw e refl)
      | inr e ↦ elim (Bool-cases throws) [
        | inl x ↦ inr (inl (ground (arith, e), rw (e, x) refl))
        | inr x ↦ inr (inr (ground (arith, e), rw (e, x) refl))
      ]
    ]

fetched-Inv :
    (sofar : List (Option Bytes)) (t : Checks) (throws : Bool) (w : Link)
    → Inv sofar w
    → Inv sofar (step (fetched t throws) w)
unfolding step fetches handed
fetched-Inv sofar t throws w h = elim (fetch_mailbox-cases t throws w.page) [
  | inl e ↦ record { pending = rw e h.pending; whole = rw e h.whole }
  | inr (inl (f, e)) ↦ record { pending = rw e h.pending; whole = rw e h.whole }
  | inr (inr (f, e)) ↦ record {
    pending = rw e (omega (arith, h.pending ∙ ap (λ b. w.answered + open_requests b) f));
    whole = rw e h.whole;
  }
]

-- An open request is the only one.
only_one :
    (sofar : List (Option Bytes)) (w : Link)
    → Inv sofar w
    → ltb w.answered (fetches w.page.out) ≡ true
    → (w.page.fetching ≡ true) × (fetches w.page.out ≡ w.answered + 1)
only_one sofar w h e = elim (Bool-cases w.page.fetching) [
  | inl f ↦ (f, h.pending ∙ ap (λ b. w.answered + open_requests b) f)
  | inr f ↦ absurd (ground (arith, h.pending ∙ ap (λ b. w.answered + open_requests b) f, e))
]

served-Inv :
    (sofar : List (Option Bytes)) (throws : Bool) (q : List (Option Bytes)) (w : Link)
    → fetches w.page.out ≡ w.answered + 1
    → w.page.fetching ≡ true
    → handed w.page.out ++ parsed q ≡ parsed sofar
    → Inv sofar (served throws q w)
unfolding served fetches handed parsed on_mailbox_message
served-Inv sofar throws [] w n f h = record { pending = omega (arith, n); whole = h }
served-Inv sofar true (none ∷ fs) w n f h = record { pending = omega (arith, n); whole = h }
served-Inv sofar false (none ∷ fs) w n f h = record { pending = rw f (omega (arith, n)); whole = h }
served-Inv sofar true (some frame ∷ fs) w n f h = record {
  pending = omega (arith, n);
  whole = append_assoc (handed w.page.out) (frame ∷ []) (parsed fs) ∙ h;
}
served-Inv sofar false (some frame ∷ fs) w n f h = record {
  pending = rw f (omega (arith, n));
  whole = append_assoc (handed w.page.out) (frame ∷ []) (parsed fs) ∙ h;
}

answer-Inv :
    (sofar : List (Option Bytes)) (throws : Bool) (w : Link)
    → Inv sofar w
    → Inv sofar (answer throws w)
unfolding answer
answer-Inv sofar throws w h = elim (Bool-cases (ltb w.answered (fetches w.page.out))) [
  | inl e ↦
      let (f, n) = only_one sofar w h e in
      rw (e, answer) (served-Inv sofar throws w.queue w n f h.whole)
  | inr e ↦ rw (e, answer) h
]

run-Inv :
    (es : List Event) (sofar : List (Option Bytes)) (w : Link)
    → Inv sofar w
    → Inv (sofar ++ left_by es) (run es w)
unfolding run left_by step
run-Inv [] sofar w h = subst (λ l. Inv l w) (sym (append-nil sofar)) h
run-Inv (left f ∷ es) sofar w h =
    subst (λ l. Inv l (run es (step (left f) w))) (append_assoc sofar (f ∷ []) (left_by es))
      (run-Inv es (sofar ++ (f ∷ [])) (step (left f) w) (left-Inv sofar f w h))
run-Inv (fetched t throws ∷ es) sofar w h =
    run-Inv es sofar (step (fetched t throws) w) (fetched-Inv sofar t throws w h)
run-Inv (answers throws ∷ es) sofar w h =
    run-Inv es sofar (answer throws w) (answer-Inv sofar throws w h)

is_open :
    (sofar : List (Option Bytes)) (w : Link)
    → Inv sofar w
    → w.page.fetching ≡ true
    → ltb w.answered (fetches w.page.out) ≡ true
is_open sofar w h f = ground (arith, h.pending ∙ ap (λ b. w.answered + open_requests b) f)

-- Without an open request there is no answer.
answered_times-idle : (n : ℕ) (w : Link) → fetches w.page.out ≡ w.answered → answered_times n w ≡ w
unfolding answered_times answer
answered_times-idle zero w e = refl
answered_times-idle (suc n) w e =
    let r : answer false w ≡ w = unfold answer in ground (arith, e) in
    ap (answered_times n) r ∙ answered_times-idle n w e

-- The state that is left: the envelopes were handed on, and the loop is over.
abbrev IsDrained : List (Option Bytes) → Link → Type 0
IsDrained sofar d = (handed d.page.out ≡ parsed sofar) × (d.queue ≡ []) × (d.page.fetching ≡ false)

-- The last answer.
empty_ends :
    (sofar : List (Option Bytes)) (n : ℕ) (w : Link)
    → Inv sofar w
    → w.queue ≡ []
    → w.page.fetching ≡ true
    → IsDrained sofar (answered_times n (served false [] w))
unfolding served on_mailbox_message parsed
empty_ends sofar n w h e f =
    let d = served false [] w in
    let n1 = h.pending ∙ ap (λ b. w.answered + open_requests b) f in
    let over = answered_times-idle n d (omega (arith, n1)) in
    let all : handed w.page.out ≡ parsed sofar =
      sym (append-nil (handed w.page.out))
      ∙ ap (λ l. handed w.page.out ++ parsed l) (sym e)
      ∙ h.whole in
    subst (IsDrained sofar) (sym over) (all, refl, refl)

still_fetching :
    (f : Option Bytes) (fs : List (Option Bytes)) (w : Link)
    → w.page.fetching ≡ true
    → (served false (f ∷ fs) w).page.fetching ≡ true
unfolding served on_mailbox_message
still_fetching none fs w e = e
still_fetching (some frame) fs w e = e

-- The loop comes to its end.
answered_times-ends :
    (sofar q : List (Option Bytes)) (n : ℕ) (w : Link)
    → Inv sofar w
    → w.queue ≡ q
    → w.page.fetching ≡ true
    → length q < n
    → IsDrained sofar (answered_times n w)
unfolding answered_times
answered_times-ends sofar q zero w h e f l = absurd (omega (arith, l))
answered_times-ends sofar [] (suc n) w h e f l =
    let r : answer false w ≡ served false [] w =
      unfold answer in rw (is_open sofar w h f, e) refl in
    subst (λ x. IsDrained sofar (answered_times n x)) (sym r) (empty_ends sofar n w h e f)
answered_times-ends sofar (x ∷ fs) (suc n) w h e f l =
    let w' = served false (x ∷ fs) w in
    let r : answer false w ≡ w' = unfold answer in rw (is_open sofar w h f, e) refl in
    let h' = subst (Inv sofar) r (answer-Inv sofar false w h) in
    subst (λ x. IsDrained sofar (answered_times n x)) (sym r)
      (answered_times-ends sofar fs n w' h' (unfold served in refl) (still_fetching x fs w f)
        (omega (arith, l)))

guard_set :
    (t : Checks) (s : Mailbox)
    → t.enabled ≡ true
    → t.has_mailbox ≡ true
    → t.connected ≡ true
    → (fetch_mailbox t false s).fetching ≡ true
unfolding fetch_mailbox
guard_set t s e m c = elim (Bool-cases s.fetching) [
  | inl f ↦ rw (e, m, c, f) refl
  | inr f ↦ rw (e, m, c, f) refl
]

-- Whatever happened before, with envelopes that peers left, calls of fetchMailbox, answers, and sends
-- that threw: after one call of fetchMailbox on an open connection with a mailbox, if no send throws
-- from then on, the mailbox is drained by one answer more than the envelopes that it holds. Every
-- envelope that was ever left and parses has then been handed on once, in order, and the loop is over.
pub fetch_drains :
    (es : List Event) (t : Checks) (n : ℕ)
    → t.enabled ≡ true
    → t.has_mailbox ≡ true
    → t.connected ≡ true
    → length (run es new_link).queue < n
    → let d = answered_times n (step (fetched t false) (run es new_link)) in
      (handed d.page.out ≡ parsed (left_by es)) × (d.queue ≡ []) × (d.page.fetching ≡ false)
fetch_drains es t n e m c l =
    let w = run es new_link in
    let start : Inv [] new_link =
      unfold fetches handed parsed in record { pending = refl; whole = refl } in
    let h = fetched-Inv (left_by es) t false w (run-Inv es [] new_link start) in
    answered_times-ends (left_by es) w.queue n (step (fetched t false) w) h (unfold step in refl)
      (unfold step in guard_set t w.page e m c) l
