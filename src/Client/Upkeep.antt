-- ===== src/Client/Upkeep.antt =====
-- How `web/app.js` keeps the connection alive: wakeConnection, the staleness watchdog and
-- ensureConnected. A time is in milliseconds, on the clock of `Date.now`.
pub mod Spared
pub mod Settled
pub mod Tests
use tele.Prelude.{
  ℕ, ◌-◌, Bool, true, false, not, ◌||◌, Option, none, some, List, [], ◌∷◌, ltb, if◌then◌else◌,
}
use tele.Client.Receive.{Session}
use tele.Client.Step.{Event, run}
use tele.Client.{Client, is_connected, reconnect_now, force_reconnect}

-- STALE_MS
abbrev pub stale_ms : ℕ
stale_ms = 50000

-- The limit in wakeConnection.
abbrev pub wake_ms : ℕ
wake_ms = 25000

-- `Date.now() - (client.lastRx || 0) > limit`
abbrev is_stale : ℕ → ℕ → Client → Bool
is_stale limit now c = ltb limit (now - c.last_rx)

-- wakeConnection, and whether it fetches from the mailbox.
unfoldable pub wake_connection : ℕ → Client → Client × Bool
unfolding is_connected force_reconnect
wake_connection now c =
    if not (is_connected c) || is_stale wake_ms now c then (force_reconnect c, false) else (c, true)

-- The callback of the staleness watchdog; `hidden` is `document.hidden`.
unfoldable pub watch_staleness : Bool → ℕ → Client → Client
unfolding is_connected force_reconnect
watch_staleness hidden now c =
    if not c.app_ping_seen
    then c
    else if hidden
    then c
    else if not (is_connected c)
    then c
    else if is_stale stale_ms now c
    then force_reconnect c
    else c

-- A run of the interval in ensureConnected, with the events since the one before.
pub record Tick : Type 0 where
  pub events : List Event
  pub at : ℕ

-- The interval of ensureConnected: what it resolves with, if it does, and the client then.
unfoldable pub poll : Session → ℕ → ℕ → List Tick → Client → Option Bool × Client
unfolding is_connected run
poll s timeout t0 [] c = (none, c)
poll s timeout t0 (k ∷ ticks) c =
    let c' = run s k.events c in
    let rest = poll s timeout t0 ticks c' in
    if is_connected c'
    then (some true, c')
    else if ltb timeout (k.at - t0)
    then (some false, c')
    else rest

-- ensureConnected at time `t0`
unfoldable pub ensure_connected : Session → ℕ → ℕ → List Tick → Client → Option Bool × Client
unfolding is_connected reconnect_now poll
ensure_connected s timeout t0 ticks c =
    if is_connected c then (some true, c) else poll s timeout t0 ticks (reconnect_now c)
