-- ===== src/Client/Sockets.antt =====
-- Which socket the client listens to.
use tele.Prelude.{ℕ, ◌<◌, ◌≡◌, true, false, none, some, List, [], ◌∷◌, arith}
use tele.Client.Receive.{Session, text, binary}
use tele.Client.{reconnect_min_ms, connecting, closing, Client, reconnect_now, force_reconnect}
use tele.Client.Invariant.{Inv}
use tele.Client.Step.{
  Event, opened, closed, received, timer_fired, do_connect, do_close, do_reconnect_now,
  do_force_reconnect, do_send_peer, do_send_server, step, run,
}

-- An old socket that has lost its handlers.
pub record IsDeaf (i : ℕ) (c : Client) : Type 0 where
  pub old : i < c.next_socket
  pub unwired : (c.sockets i).wired ≡ false

step-IsDeaf : (s : Session) (e : Event) (i : ℕ) (c : Client) → IsDeaf i c → IsDeaf i (step s e c)
unfolding step
step-IsDeaf s (opened j) i c h = ground arith
step-IsDeaf s (closed j) i c h = ground arith
step-IsDeaf s (received j now (text t)) i c h = ground arith
step-IsDeaf s (received j now (binary b)) i c h = ground arith
step-IsDeaf s timer_fired i c h = ground arith
step-IsDeaf s do_connect i c h = ground arith
step-IsDeaf s do_close i c h = ground arith
step-IsDeaf s do_reconnect_now i c h = ground arith
step-IsDeaf s do_force_reconnect i c h = ground arith
step-IsDeaf s (do_send_peer id frame) i c h = ground arith
step-IsDeaf s (do_send_server frame) i c h = ground arith

run-IsDeaf :
    (s : Session) (es : List Event) (i : ℕ) (c : Client) → IsDeaf i c → IsDeaf i (run s es c)
unfolding run
run-IsDeaf s [] i c h = h
run-IsDeaf s (e ∷ es) i c h = run-IsDeaf s es i (step s e c) (step-IsDeaf s e i c h)

-- The events of one socket.
abbrev pub IsEventOf : ℕ → Event → Type 0
IsEventOf i (opened j) = i ≡ j
IsEventOf i (closed j) = i ≡ j
IsEventOf i (received j now m) = i ≡ j
IsEventOf i _ = ⊥

-- The fields that the page and the server can see.
pub record SameView (c d : Client) : Type 0 where
  pub same_ws : c.ws ≡ d.ws
  pub same_timer : c.reconnect_timer ≡ d.reconnect_timer
  pub same_established : c.established ≡ d.established
  pub same_out : c.out ≡ d.out

deaf_event :
    (s : Session) (e : Event) (i : ℕ) (c : Client)
    → IsEventOf i e
    → IsDeaf i c
    → SameView (step s e c) c
unfolding step
deaf_event s (opened j) i c p h = ground arith
deaf_event s (closed j) i c p h = ground arith
deaf_event s (received j now (text t)) i c p h = ground arith
deaf_event s (received j now (binary b)) i c p h = ground arith
deaf_event s _ i c p h = absurd p

force_reconnect-IsDeaf : (i : ℕ) (c : Client) → Inv c → c.ws ≡ some i → IsDeaf i (force_reconnect c)
unfolding force_reconnect
force_reconnect-IsDeaf i c v e = ground arith

-- After `forceReconnect`, and after any further events, no event of the old socket changes the
-- current socket, the timer or the session, or causes an effect.
pub force_reconnect_silences :
    (s : Session) (es : List Event) (e : Event) (i : ℕ) (c : Client)
    → Inv c
    → c.ws ≡ some i
    → IsEventOf i e
    → let d = run s es (force_reconnect c) in SameView (step s e d) d
force_reconnect_silences s es e i c v w p =
    deaf_event s e i _ p (run-IsDeaf s es i (force_reconnect c) (force_reconnect-IsDeaf i c v w))

-- If `reconnectNow` runs while the current socket is closing and has its handlers, the late `close`
-- event of that socket takes `ws` from the new one, which keeps its handlers and goes on connecting,
-- and arms the timer for a third.
pub reconnect_now_orphans :
    (s : Session) (i : ℕ) (c : Client)
    → Inv c
    → c.ws ≡ some i
    → (c.sockets i).ready ≡ closing
    → (c.sockets i).wired ≡ true
    → let d = step s (closed i) (reconnect_now c) in
      (d.ws ≡ none)
      × ((d.sockets c.next_socket).ready ≡ connecting)
      × ((d.sockets c.next_socket).wired ≡ true)
      × (d.reconnect_timer ≡ some reconnect_min_ms)
unfolding step
reconnect_now_orphans s i c v w r l = ground arith
