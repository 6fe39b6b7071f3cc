-- ===== src/Prompt/Window.antt =====
-- The ringtone, the window of the prompt and the length of the call log (`web/app.js`).
use tele.Book.{is_banned}
use tele.Chat.{bump}
use tele.Prelude.{
  ℕ, ◌+◌, ◌≤◌, ◌≡◌, refl, sym, ap, ◌∙◌, ◌⊎◌, inl, inr, Bool, true, false, Option, none, some, List,
  [], ◌∷◌, ◌++◌, arith, ltb, Bool-cases, Option-cases, length,
}
use tele.Bytes.{Text}
use tele.Prompt.{
  LogEvent, incoming, accepted, declined, missed, dup, ended, reject_incoming, reject_invite,
  Prompt, shift_to, log_call, clear_incoming, show_incoming, on_timeout, accept_incoming_call,
  on_accept, on_reject, arm_auto_accept, on_incoming_call, on_missed_call, on_ended, on_connected,
  show_group_invite, clear_group_invite, on_invite_accept, on_invite_reject, on_group_state,
}

abbrev pub is_shown : Option Text → Bool
is_shown none = false
is_shown (some id) = true

-- The window is there exactly while a call waits for an answer, and so is the timeout; the dialog of a
-- group call exactly while an invitation does; the ringtone plays at most while one of the two is
-- there; the log has at most eighty entries.
pub record Inv (p : Prompt) : Type 0 where
  pub window : p.dialog ≡ is_shown p.pending
  pub timeout : p.timer ≡ is_shown p.pending
  pub invitation : p.group_dialog ≡ is_shown p.group_invite
  pub ring : p.ringing ≡ true → (p.dialog ≡ true) ⊎ (p.group_dialog ≡ true)
  pub bounded : length p.log ≤ 80

length-shift_to : (n : ℕ) (log : List (LogEvent × Text)) → length (shift_to n log) ≤ n
unfolding shift_to
length-shift_to n [] = omega arith
length-shift_to n (e ∷ log) = ground (arith, length-shift_to n log)

-- An entry of the log changes nothing else.
log_call-Inv : (ev : LogEvent) (id : Text) (p : Prompt) → Inv p → Inv (log_call ev id p)
unfolding log_call
log_call-Inv ev id p h = record {
  window = h.window;
  timeout = h.timeout;
  invitation = h.invitation;
  ring = h.ring;
  bounded = length-shift_to 80 (p.log ++ ((ev, id) ∷ []));
}

clear_incoming-Inv :
    (p : Prompt)
    → p.group_dialog ≡ is_shown p.group_invite
    → length p.log ≤ 80
    → Inv (clear_incoming p)
unfolding clear_incoming
clear_incoming-Inv p g h = record {
  window = refl;
  timeout = refl;
  invitation = g;
  ring = λ e. absurd (cc e);
  bounded = h;
}

-- Only the log, the two windows, the timeout and the ringtone matter.
other-Inv :
    (p q : Prompt)
    → q.log ≡ p.log
    → q.pending ≡ p.pending
    → q.timer ≡ p.timer
    → q.dialog ≡ p.dialog
    → q.group_invite ≡ p.group_invite
    → q.group_dialog ≡ p.group_dialog
    → q.ringing ≡ p.ringing
    → Inv p
    → Inv q
other-Inv p q el ep et ed eg eh er h = record {
  window = ed ∙ h.window ∙ ap is_shown (sym ep);
  timeout = et ∙ h.timeout ∙ ap is_shown (sym ep);
  invitation = eh ∙ h.invitation ∙ ap is_shown (sym eg);
  ring = λ e. elim (h.ring (sym er ∙ e)) [ inl d ↦ inl (ed ∙ d) | inr d ↦ inr (eh ∙ d) ];
  bounded = rw el h.bounded;
}

show_incoming-Inv : (id : Text) (p : Prompt) → Inv p → Inv (show_incoming id p)
unfolding show_incoming
show_incoming-Inv id p h = elim (Option-cases p.pending) [
  | inl e ↦
      rw (e, show_incoming)
        (log_call-Inv incoming id
          (record p { pending = some id; dialog = true; ringing = true; timer = true })
          (record {
            window = refl;
            timeout = refl;
            invitation = h.invitation;
            ring = λ e. inl refl;
            bounded = h.bounded;
          }))
  | inr (other, e) ↦ rw (e, show_incoming) (log_call-Inv dup id p h)
]

accept_incoming_call-Inv :
    (connected : Bool) (id : Text) (p : Prompt) → Inv p → Inv (accept_incoming_call connected id p)
unfolding accept_incoming_call
accept_incoming_call-Inv connected id p h =
    other-Inv (clear_incoming (record (log_call accepted id p) { in_call = some id }))
      (accept_incoming_call connected id p) refl refl refl refl refl refl refl
      (clear_incoming-Inv (record (log_call accepted id p) { in_call = some id }) h.invitation
        (log_call-Inv accepted id p h).bounded)

on_timeout-Inv : (p : Prompt) → Inv p → Inv (on_timeout p)
unfolding on_timeout
on_timeout-Inv p h = elim (Option-cases p.pending) [
  | inl e ↦
      rw (e, on_timeout)
        (record {
          window = h.window;
          timeout = sym (ap is_shown e);
          invitation = h.invitation;
          ring = h.ring;
          bounded = h.bounded;
        })
  | inr (id, e) ↦
      rw (e, on_timeout)
        (clear_incoming-Inv (log_call missed id p) h.invitation
          (log_call-Inv missed id p h).bounded)
]

on_reject-Inv : (p : Prompt) → Inv p → Inv (on_reject p)
unfolding on_reject
on_reject-Inv p h = elim (Option-cases p.pending) [
  | inl e ↦ rw (e, on_reject) h
  | inr (id, e) ↦
      rw (e, on_reject)
        (clear_incoming-Inv
          (record (log_call declined id p) {
            asked = reject_incoming id ∷ (log_call declined id p).asked;
          })
          h.invitation (log_call-Inv declined id p h).bounded)
]

on_ended-Inv : (p : Prompt) → Inv p → Inv (on_ended p)
unfolding on_ended
on_ended-Inv p h =
    let q = clear_incoming p in
    let hq = clear_incoming-Inv p h.invitation h.bounded in
    elim (Option-cases q.in_call) [
      | inl e ↦ rw (e, on_ended) hq
      | inr (id, e) ↦
          rw (e, on_ended)
            (other-Inv (log_call ended id q) _ refl refl refl refl refl refl refl
              (log_call-Inv ended id q hq))
    ]

-- What can happen to the prompts: calls, notices and invitations of peers, the timeout, the buttons, a
-- push that was tapped, and what becomes of a call and of a group call.
pub data Event : Type 0 where
  called : ℕ → Bool → Text → Event
  missed_by : Text → Event
  timed_out : Event
  accepts : Bool → Event
  rejects : Event
  arms : ℕ → Event
  call_ended call_connected : Event
  invited : Text → Event
  joins declines group_changed : Event

unfoldable pub step : Event → Prompt → Prompt
step (called now connected id) p = on_incoming_call now connected id p
step (missed_by id) p = on_missed_call id p
step timed_out p = on_timeout p
step (accepts connected) p = on_accept connected p
step rejects p = on_reject p
step (arms now) p = arm_auto_accept now p
step call_ended p = on_ended p
step call_connected p = on_connected p
step (invited room) p = show_group_invite room p
step joins p = on_invite_accept p
step declines p = on_invite_reject p
step group_changed p = on_group_state p

unfoldable pub run : List Event → Prompt → Prompt
unfolding step
run [] p = p
run (e ∷ es) p = run es (step e p)

on_incoming_call-Inv :
    (now : ℕ) (connected : Bool) (id : Text) (p : Prompt)
    → Inv p
    → Inv (on_incoming_call now connected id p)
unfolding on_incoming_call
on_incoming_call-Inv now connected id p h = elim (Bool-cases (is_banned id p.blacklist)) [
  | inl b ↦
      rw (b, on_incoming_call)
        (other-Inv p (record p { asked = reject_incoming id ∷ p.asked }) refl refl refl refl refl
          refl refl h)
  | inr b ↦ elim (Bool-cases (ltb now p.auto_accept_until)) [
    | inl a ↦
        rw (b, on_incoming_call, a)
          (accept_incoming_call-Inv connected id (record p { auto_accept_until = 0 })
            (other-Inv p (record p { auto_accept_until = 0 }) refl refl refl refl refl refl refl h))
    | inr a ↦ rw (b, on_incoming_call, a) (show_incoming-Inv id p h)
  ]
]

on_missed_call-Inv : (id : Text) (p : Prompt) → Inv p → Inv (on_missed_call id p)
unfolding on_missed_call
on_missed_call-Inv id p h = elim (Bool-cases (is_banned id p.blacklist)) [
  | inl b ↦ rw (b, on_missed_call) h
  | inr b ↦
      rw (b, on_missed_call)
        (other-Inv (log_call missed id p)
          (record (log_call missed id p) { missed_calls = bump id p.missed_calls }) refl refl refl
          refl refl refl refl (log_call-Inv missed id p h))
]

on_accept-Inv : (connected : Bool) (p : Prompt) → Inv p → Inv (on_accept connected p)
unfolding on_accept
on_accept-Inv connected p h = elim (Option-cases p.pending) [
  | inl e ↦ rw (e, on_accept) h
  | inr (id, e) ↦ rw (e, on_accept) (accept_incoming_call-Inv connected id p h)
]

clear_group_invite-Inv : (p : Prompt) → Inv p → Inv (clear_group_invite p)
unfolding clear_group_invite
clear_group_invite-Inv p h = record {
  window = h.window;
  timeout = h.timeout;
  invitation = refl;
  ring = λ e. absurd (cc e);
  bounded = h.bounded;
}

on_invite_accept-Inv : (p : Prompt) → Inv p → Inv (on_invite_accept p)
unfolding on_invite_accept
on_invite_accept-Inv p h = elim (Option-cases p.group_invite) [
  | inl e ↦ rw (e, on_invite_accept) h
  | inr (room, e) ↦
      rw (e, on_invite_accept)
        (other-Inv (clear_group_invite p) _ refl refl refl refl refl refl refl
          (clear_group_invite-Inv p h))
]

on_invite_reject-Inv : (p : Prompt) → Inv p → Inv (on_invite_reject p)
unfolding on_invite_reject
on_invite_reject-Inv p h = elim (Option-cases p.group_invite) [
  | inl e ↦ rw (e, on_invite_reject) h
  | inr (room, e) ↦
      let q = record p { asked = reject_invite room ∷ p.asked } in
      rw (e, on_invite_reject)
        (clear_group_invite-Inv q (other-Inv p q refl refl refl refl refl refl refl h))
]

step-Inv : (e : Event) (p : Prompt) → Inv p → Inv (step e p)
unfolding step arm_auto_accept on_connected show_group_invite on_group_state
step-Inv (called now connected id) p h = on_incoming_call-Inv now connected id p h
step-Inv (missed_by id) p h = on_missed_call-Inv id p h
step-Inv timed_out p h = on_timeout-Inv p h
step-Inv (accepts connected) p h = on_accept-Inv connected p h
step-Inv rejects p h = on_reject-Inv p h
step-Inv (arms now) p h =
    other-Inv p (record p { auto_accept_until = now + 20000 }) refl refl refl refl refl refl refl h
step-Inv call_ended p h = on_ended-Inv p h
step-Inv call_connected p h = record {
  window = h.window;
  timeout = h.timeout;
  invitation = h.invitation;
  ring = λ e. absurd (cc e);
  bounded = h.bounded;
}
step-Inv (invited room) p h = record {
  window = h.window;
  timeout = h.timeout;
  invitation = refl;
  ring = λ e. inr refl;
  bounded = h.bounded;
}
step-Inv joins p h = on_invite_accept-Inv p h
step-Inv declines p h = on_invite_reject-Inv p h
step-Inv group_changed p h = record {
  window = h.window;
  timeout = h.timeout;
  invitation = h.invitation;
  ring = λ e. absurd (cc e);
  bounded = h.bounded;
}

-- Whatever calls and invitations come in and end, and whatever the user does: the window of the prompt
-- is there exactly while a call waits for an answer, and so is its timeout; the dialog of a group call
-- is there exactly while an invitation waits; the ringtone plays at most while one of the two is
-- there; and the call log never has more than eighty entries.
pub ring_has_window : (es : List Event) (p : Prompt) → Inv p → Inv (run es p)
unfolding run
ring_has_window [] p h = h
ring_has_window (e ∷ es) p h = ring_has_window es (step e p) (step-Inv e p h)
