-- ===== src/Client/Backoff.antt =====
-- The exponential back-off of `_scheduleReconnect`, and the silence after a manual close.
use native.Mathlib.Nat.{min-eq_left, min-eq_right, pow-suc}
use tele.Prelude.{
  ℕ, zero, suc, ◌*◌, ◌^◌, ◌≤◌, min, ◌≡◌, ap, ◌∙◌, ◌⊎◌, inl, inr, true, false, some, List, [], ◌∷◌,
  arith, All,
}
use tele.Client.Receive.{Session, text, binary}
use tele.Client.{reconnect_max_ms, Client, close}
use tele.Client.Step.{
  Event, opened, closed, received, timer_fired, do_connect, do_close, do_reconnect_now,
  do_force_reconnect, do_send_peer, do_send_server, step, run,
}

-- One attempt that fails: the timer fires, and the socket that it opens is closed.
pub failed_attempt : Session → Client → Client
failed_attempt s c = step s (closed c.next_socket) (step s timer_fired c)

pub failed_attempts : Session → ℕ → Client → Client
failed_attempts s zero c = c
failed_attempts s (suc k) c = failed_attempts s k (failed_attempt s c)

-- The client waits for its timer.
pub record IsWaiting (c : Client) : Type 0 where
  pub wanted : c.closed_manually ≡ false
  pub armed : c.reconnect_timer ≡ some c.reconnect_ms
  pub capped : c.reconnect_ms ≤ reconnect_max_ms

failed_attempt-IsWaiting : (s : Session) (c : Client) → IsWaiting c → IsWaiting (failed_attempt s c)
unfolding failed_attempt step
failed_attempt-IsWaiting s c h = ground arith

reconnect_ms-failed_attempt :
    (s : Session) (c : Client)
    → IsWaiting c
    → (failed_attempt s c).reconnect_ms ≡ min (c.reconnect_ms * 2) reconnect_max_ms
unfolding failed_attempt step
reconnect_ms-failed_attempt s c h = ground arith

pow_pos : (k : ℕ) → 1 ≤ 2 ^ k
pow_pos zero = omega arith
pow_pos (suc k) = rw pow-suc (omega (arith, pow_pos k))

le_scaled : (m p : ℕ) → 1 ≤ p → m ≤ m * p
le_scaled m p h = grind arith

min_scaled : (r m p : ℕ) → 1 ≤ p → min (min (r * 2) m * p) m ≡ min (r * (p * 2)) m
min_scaled r m p h =
    let t : (r * 2 ≤ m) ⊎ (m ≤ r * 2) = omega arith in
    elim t [
      | inl q ↦ rw (min-eq_left q) (omega arith)
      | inr q ↦ rw (min-eq_right q) (omega (arith, le_scaled m p h, le_scaled (r * 2) p h))
    ]

-- After k attempts in a row that failed, the next one waits min (r * 2^k) 30000 ms, where r is the
-- delay of the first.
pub backoff_doubles :
    (s : Session) (k : ℕ) (c : Client)
    → IsWaiting c
    → (failed_attempts s k c).reconnect_timer ≡ some (min (c.reconnect_ms * 2 ^ k) reconnect_max_ms)
unfolding failed_attempts
backoff_doubles s zero c h = ground (arith, h.armed, h.capped)
backoff_doubles s (suc k) c h =
    backoff_doubles s k (failed_attempt s c) (failed_attempt-IsWaiting s c h)
    ∙ ap some (
        rw (reconnect_ms-failed_attempt s c h, pow-suc)
          (min_scaled c.reconnect_ms reconnect_max_ms (2 ^ k) (pow_pos k)))

-- Events that the page does not ask a connection with.
abbrev pub IsPassive : Event → Type 0
IsPassive do_connect = ⊥
IsPassive do_reconnect_now = ⊥
IsPassive do_force_reconnect = ⊥
IsPassive _ = Unit {0}

pub record IsClosedFor (n : ℕ) (c : Client) : Type 0 where
  pub manual : c.closed_manually ≡ true
  pub sockets_made : c.next_socket ≡ n

step-IsClosedFor :
    (s : Session) (e : Event) (n : ℕ) (c : Client)
    → IsPassive e
    → IsClosedFor n c
    → IsClosedFor n (step s e c)
unfolding step
step-IsClosedFor s (opened i) n c p h = ground arith
step-IsClosedFor s (closed i) n c p h = ground arith
step-IsClosedFor s (received i now (text t)) n c p h = ground arith
step-IsClosedFor s (received i now (binary b)) n c p h = ground arith
step-IsClosedFor s timer_fired n c p h = ground arith
step-IsClosedFor s do_close n c p h = ground arith
step-IsClosedFor s (do_send_peer id frame) n c p h = ground arith
step-IsClosedFor s (do_send_server frame) n c p h = ground arith
step-IsClosedFor s _ n c p h = absurd p

run-IsClosedFor :
    (s : Session) (es : List Event) (n : ℕ) (c : Client)
    → All IsPassive es
    → IsClosedFor n c
    → IsClosedFor n (run s es c)
unfolding run
run-IsClosedFor s [] n c p h = h
run-IsClosedFor s (e ∷ es) n c p h =
    run-IsClosedFor s es n (step s e c) p.1 (step-IsClosedFor s e n c p.0 h)

-- After `close`, whatever the browser reports and whatever is sent, no socket is opened again until
-- the page asks for a connection.
pub close_stays_closed :
    (s : Session) (es : List Event) (c : Client)
    → All IsPassive es
    → (run s es (close c)).next_socket ≡ c.next_socket
unfolding close
close_stays_closed s es c p =
    (run-IsClosedFor s es c.next_socket (close c) p (ground arith)).sockets_made
