-- ===== src/Client/Invariant.antt =====
-- What holds of the client after any events, in any order.
use tele.Prelude.{ℕ, ◌≤◌, ◌<◌, Option, none, some, List, [], ◌∷◌, arith}
use tele.Client.Receive.{Session, text, binary}
use tele.Client.{reconnect_min_ms, reconnect_max_ms, Client, new_client}
use tele.Client.Step.{
  Event, opened, closed, received, timer_fired, do_connect, do_close, do_reconnect_now,
  do_force_reconnect, do_send_peer, do_send_server, step, run,
}

-- A fact about a value, if there is one.
abbrev pub Holds : (ℕ → Type 0) → Option ℕ → Type 0
Holds P none = Unit
Holds P (some n) = P n

pub record Inv (c : Client) : Type 0 where
  pub backoff_low : reconnect_min_ms ≤ c.reconnect_ms
  pub backoff_high : c.reconnect_ms ≤ reconnect_max_ms
  pub id_fits : c.msg_id_counter < 65536
  pub ws_known : Holds (λ i. i < c.next_socket) c.ws
  pub delay_low : Holds (λ d. reconnect_min_ms ≤ d) c.reconnect_timer
  pub delay_high : Holds (λ d. d ≤ reconnect_max_ms) c.reconnect_timer

new_client-Inv : Inv new_client
unfolding new_client
new_client-Inv = ground arith

pub step-Inv : (s : Session) (e : Event) (c : Client) → Inv c → Inv (step s e c)
unfolding step
step-Inv s (opened i) c h = ground arith
step-Inv s (closed i) c h = ground arith
step-Inv s (received i now (text t)) c h = ground arith
step-Inv s (received i now (binary b)) c h = ground arith
step-Inv s timer_fired c h = ground arith
step-Inv s do_connect c h = ground arith
step-Inv s do_close c h = ground arith
step-Inv s do_reconnect_now c h = ground arith
step-Inv s do_force_reconnect c h = ground arith
step-Inv s (do_send_peer id frame) c h = ground arith
step-Inv s (do_send_server frame) c h = ground arith

run-Inv : (s : Session) (es : List Event) (c : Client) → Inv c → Inv (run s es c)
unfolding run
run-Inv s [] c h = h
run-Inv s (e ∷ es) c h = run-Inv s es (step s e c) (step-Inv s e c h)

-- From a new client, after any events in any order: the back-off and a pending retry are between
-- one second and thirty, the message counter fits sixteen bits, and `ws` is a socket that was made.
pub reachable-Inv : (s : Session) (es : List Event) → Inv (run s es new_client)
reachable-Inv s es = run-Inv s es new_client new_client-Inv
