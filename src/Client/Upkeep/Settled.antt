-- ===== src/Client/Upkeep/Settled.antt =====
-- That ensureConnected resolves.
use tele.Client.Step.{run}
use tele.Prelude.{
  ℕ, ◌+◌, ◌-◌, ◌<◌, ◌≡◌, refl, sym, ap, inl, inr, Bool, true, false, some, List, [], ◌∷◌, ◌++◌,
  arith, ltb, if◌then◌else◌, Bool-cases,
}
use tele.Client.Receive.{Session}
use tele.Client.{Client, is_connected, reconnect_now}
use tele.Client.Upkeep.{Tick, poll, ensure_connected}

ltb_late : (timeout t0 at : ℕ) → t0 + timeout < at → ltb timeout (at - t0) ≡ true
ltb_late timeout t0 at late = ground arith

poll_settles :
    (s : Session) (timeout t0 : ℕ) (ticks : List Tick) (last : Tick) (c : Client)
    → t0 + timeout < last.at
    → let r = poll s timeout t0 (ticks ++ last ∷ []) c in r.0 ≡ some (is_connected r.1)
unfolding poll
poll_settles s timeout t0 [] last c late = elim (Bool-cases (is_connected (run s last.events c))) [
  | inl e ↦ rw (e, poll) (ap some (sym e))
  | inr e ↦ rw (e, poll, ltb_late timeout t0 last.at late) (ap some (sym e))
]
poll_settles s timeout t0 (k ∷ ticks) last c late =
    let c' = run s k.events c in
    elim (Bool-cases (is_connected c')) [
      | inl e ↦ rw (e, poll) (ap some (sym e))
      | inr e ↦ elim (Bool-cases (ltb timeout (k.at - t0))) [
        | inl l ↦ rw (e, poll, l) (ap some (sym e))
        | inr l ↦ rw (e, poll, l) (poll_settles s timeout t0 ticks last c' late)
      ]
    ]

take_else {ℓ} : {A : Type ℓ} → (b : Bool) (x y : A) → b ≡ false → (if b then x else y) ≡ y
take_else b x y e = rw e refl

ensure_waits :
    (s : Session) (timeout t0 : ℕ) (ticks : List Tick) (c : Client)
    → is_connected c ≡ false
    → ensure_connected s timeout t0 ticks c ≡ poll s timeout t0 ticks (reconnect_now c)
unfolding ensure_connected
ensure_waits s timeout t0 ticks c e =
    take_else (is_connected c) (some true, c) (poll s timeout t0 ticks (reconnect_now c)) e

-- Once the interval has run later than the timeout, ensureConnected has resolved, whatever happens to
-- the connection meanwhile, and with the truth: whether the client was connected at that moment.
pub ensure_settles :
    (s : Session) (timeout t0 : ℕ) (ticks : List Tick) (last : Tick) (c : Client)
    → t0 + timeout < last.at
    → let r = ensure_connected s timeout t0 (ticks ++ last ∷ []) c in r.0 ≡ some (is_connected r.1)
ensure_settles s timeout t0 ticks last c late = elim (Bool-cases (is_connected c)) [
  | inl e ↦ unfold ensure_connected in rw e (ap some (sym e))
  | inr e ↦
      rw (ensure_waits s timeout t0 (ticks ++ last ∷ []) c e)
        (poll_settles s timeout t0 ticks last (reconnect_now c) late)
]
