-- ===== src/Client/Upkeep/Spared.antt =====
-- What the staleness watchdog leaves alone and what it replaces.
use tele.Client.Upkeep.{stale_ms, watch_staleness}
use tele.Prelude.{ℕ, ◌+◌, ◌≤◌, ◌<◌, ◌≡◌, inl, inr, Bool, true, List, [], ◌∷◌, arith, Bool-cases}
use tele.Bytes.{Bytes}
use tele.Client.Receive.{Session, text, binary}
use tele.Client.Step.{
  Event, opened, closed, received, timer_fired, do_connect, do_close, do_reconnect_now,
  do_force_reconnect, do_send_peer, do_send_server, step, run,
}
use tele.Client.Invariant.{Holds}
use tele.Client.{Client, is_connected, force_reconnect}

-- Every frame in a run comes at `t` or later.
abbrev pub IsSince : ℕ → List Event → Type 0
IsSince t [] = Unit
IsSince t (received i now m ∷ es) = (t ≤ now) × IsSince t es
IsSince t (e ∷ es) = IsSince t es

-- The current socket has its handlers, and a connected client has had a frame since `t`.
record IsFresh (t : ℕ) (c : Client) : Type 0 where
  known : Holds (λ i. i < c.next_socket) c.ws
  wired : Holds (λ i. (c.sockets i).wired ≡ true) c.ws
  heard_of : is_connected c ≡ true → t ≤ c.last_rx

force_reconnect-IsFresh : (t : ℕ) (c : Client) → IsFresh t (force_reconnect c)
unfolding force_reconnect is_connected
force_reconnect-IsFresh t c = ground arith

step-IsFresh :
    (s : Session) (t : ℕ) (e : Event) (c : Client)
    → IsSince t (e ∷ [])
    → IsFresh t c
    → IsFresh t (step s e c)
unfolding step is_connected
step-IsFresh s t (opened i) c h f = ground arith
step-IsFresh s t (closed i) c h f = ground arith
step-IsFresh s t (received i now (text x)) c h f = ground arith
step-IsFresh s t (received i now (binary b)) c h f = ground arith
step-IsFresh s t timer_fired c h f = ground arith
step-IsFresh s t do_connect c h f = ground arith
step-IsFresh s t do_close c h f = ground arith
step-IsFresh s t do_reconnect_now c h f = ground arith
step-IsFresh s t do_force_reconnect c h f = ground arith
step-IsFresh s t (do_send_peer id frame) c h f = ground arith
step-IsFresh s t (do_send_server frame) c h f = ground arith

IsSince-split :
    (t : ℕ) (e : Event) (es : List Event) → IsSince t (e ∷ es) → IsSince t (e ∷ []) × IsSince t es
IsSince-split t (received i now m) es h = ((h.0, tt), h.1)
IsSince-split t _ es h = (tt, h)

run-IsFresh :
    (s : Session) (t : ℕ) (es : List Event) (c : Client)
    → IsSince t es
    → IsFresh t c
    → IsFresh t (run s es c)
unfolding run
run-IsFresh s t [] c h f = f
run-IsFresh s t (e ∷ es) c h f =
    let (now, later) = IsSince-split t e es h in
    run-IsFresh s t es (step s e c) later (step-IsFresh s t e c now f)

watch-spares :
    (hidden : Bool) (t now : ℕ) (c : Client)
    → IsFresh t c
    → now ≤ t + stale_ms
    → watch_staleness hidden now c ≡ c
unfolding watch_staleness
watch-spares hidden t now c f near = elim (Bool-cases (is_connected c)) [
  | inl e ↦ let late = f.heard_of e in ground arith
  | inr e ↦ ground arith
]

-- A socket that the watchdog has put in place at time `t` stays for STALE_MS at least: whatever
-- happens to the client from then on, and however often and when the watchdog runs up to `t` and
-- STALE_MS, it leaves the client as it is. So the watchdog opens at most one socket in STALE_MS.
pub watchdog_spares :
    (s : Session) (es : List Event) (hidden : Bool) (t now : ℕ) (c : Client)
    → IsSince t es
    → now ≤ t + stale_ms
    → let d = run s es (force_reconnect c) in watch_staleness hidden now d ≡ d
watchdog_spares s es hidden t now c since near =
    watch-spares hidden t now (run s es (force_reconnect c))
      (run-IsFresh s t es (force_reconnect c) since (force_reconnect-IsFresh t c)) near
