-- ===== src/Prompt/Tests.antt =====
-- The prompt of a call and the roster of `web/app.js` on concrete inputs.
use tele.Prelude.{◌≡◌, refl, true, false, none, List, [], ◌∷◌, arith, ◌===◌}
use tele.Book.{is_banned}
use tele.Prompt.{
  incoming, accepted, missed, dup, ended, Prompt, shift_to, log_call, clear_incoming, show_incoming,
  on_timeout, accept_incoming_call, on_accept, on_incoming_call, on_ended, on_connected,
  show_group_invite, clear_group_invite, on_invite_accept, on_group_state,
}
use tele.Prompt.Window.{
  Inv, Event, called, timed_out, accepts, call_ended, call_connected, invited, joins, group_changed,
  step, run, ring_has_window,
}

-- Nothing has happened yet; peer 7 is banned.
abbrev quiet : Prompt
quiet = record {
  log = [];
  pending = none;
  timer = false;
  dialog = false;
  group_invite = none;
  group_dialog = false;
  ringing = false;
  in_call = none;
  auto_accept_until = 0;
  blacklist = record { id = 7 ∷ []; qr = none; label = none } ∷ [];
  missed_calls = [];
  asked = [];
}

-- Two peers call, the banned one too; the call of the first is taken, connects and ends; an
-- invitation to a group call is taken.
abbrev day : List Event
day =
    called 10 true (1 ∷ [])
    ∷ called 11 true (2 ∷ [])
    ∷ called 12 true (7 ∷ [])
    ∷ accepts true
    ∷ call_connected
    ∷ called 20 true (2 ∷ [])
    ∷ timed_out
    ∷ call_ended
    ∷ invited (9 ∷ [])
    ∷ called 30 true (7 ∷ [])
    ∷ joins
    ∷ group_changed
    ∷ []

ring_has_window_example : Inv (run day quiet)
ring_has_window_example = ring_has_window day quiet (record {
  window = refl;
  timeout = refl;
  invitation = refl;
  ring = λ e. absurd (cc e);
  bounded = ground arith;
})

-- The log and the requests of that day.
day_log : (run day quiet).log ≡ (
    (incoming, 1 ∷ [])
    ∷ (dup, 2 ∷ [])
    ∷ (accepted, 1 ∷ [])
    ∷ (incoming, 2 ∷ [])
    ∷ (missed, 2 ∷ [])
    ∷ (ended, 1 ∷ [])
    ∷ [])
unfolding run step on_incoming_call is_banned accept_incoming_call show_incoming log_call shift_to
    clear_incoming on_timeout on_accept on_ended on_connected ◌===◌ on_group_state on_invite_accept
    show_group_invite clear_group_invite
day_log = refl

-- The peer of the call is checked as well, and peer 2 has no code.
