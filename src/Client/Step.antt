-- ===== src/Client/Step.antt =====
-- The client among its events: what the browser reports of its sockets and of the timer, and the
-- calls that the page makes. A socket without handlers changes and tells nobody.
use tele.Prelude.{ℕ, Bool, true, false, none, some, List, [], ◌∷◌, if◌then◌else◌}
use tele.Bytes.{Bytes}
use tele.Wire.{Frame}
use tele.Client.Receive.{Session, Message, on_message, on_close}
use tele.Client.Send.{send_peer, send_server}
use tele.Client.{
  Ready, connecting, open_, closed_, Client, set_ready, on_open, on_timer, is_open, connect, close,
  reconnect_now, force_reconnect,
}

pub data Event : Type 0 where
  -- the browser's
  opened closed : ℕ → Event
  received : ℕ → ℕ → Message → Event
  timer_fired : Event
  -- the page's
  do_connect do_close do_reconnect_now do_force_reconnect : Event
  do_send_peer : Bytes → Frame → Event
  do_send_server : Frame → Event

abbrev is_connecting : Ready → Bool
is_connecting connecting = true
is_connecting _ = false

abbrev is_not_closed : Ready → Bool
is_not_closed closed_ = false
is_not_closed _ = true

abbrev heard : ℕ → (Client → Client) → Client → Client
heard i f c = if (c.sockets i).wired then f c else c

-- An event that the browser cannot report in this state changes nothing.
unfoldable pub step : Session → Event → Client → Client
unfolding on_open on_message on_close on_timer connect close reconnect_now force_reconnect send_peer
    send_server
step s (opened i) c =
    if is_connecting (c.sockets i).ready then heard i (on_open i) (set_ready i open_ c) else c
step s (closed i) c =
    if is_not_closed (c.sockets i).ready then heard i (on_close i) (set_ready i closed_ c) else c
step s (received i now m) c =
    if is_open (c.sockets i).ready then heard i (on_message s now i m) c else c
step s timer_fired c = elim c.reconnect_timer [ none ↦ c | some _ ↦ on_timer c ]
step s do_connect c = connect c
step s do_close c = close c
step s do_reconnect_now c = reconnect_now c
step s do_force_reconnect c = force_reconnect c
step s (do_send_peer id frame) c = (send_peer id frame c).1
step s (do_send_server frame) c = (send_server frame c).1

unfoldable pub run : Session → List Event → Client → Client
unfolding step
run s [] c = c
run s (e ∷ es) c = run s es (step s e c)
