-- ===== src/Client/Upkeep/Tests.antt =====
-- The upkeep of the connection on small runs.
use tele.Prelude.{ℕ, ◌≡◌, false, some, List, [], ◌∷◌, arith, codes}
use tele.Client.Receive.{accepted, parse_error, Session, text, binary}
use tele.Client.Step.{Event, opened, closed, received, do_connect, run}
use tele.Client.{Client, new_client, is_connected, force_reconnect}
use tele.Client.Upkeep.{watch_staleness, Tick, ensure_connected}
use tele.Client.Upkeep.Spared.{watchdog_spares}
use tele.Client.Upkeep.Settled.{ensure_settles}

-- A server that accepts every handshake.
abbrev friendly : Session
friendly = record { finish_handshake = λ _. accepted 120; parse_incoming = λ _. parse_error }

-- A connection that is established and has had a ping at 5000.
abbrev pinged : List Event
pinged =
    do_connect ∷ opened 0 ∷ received 0 1000 (binary []) ∷ received 0 5000 (text (codes "ping")) ∷ []

abbrev live_client : Client
live_client = run friendly pinged new_client

abbrev answered : List Event
answered = opened 1 ∷ received 1 60500 (binary []) ∷ closed 0 ∷ []

watchdog_spares_example :
    let d = run friendly answered (force_reconnect live_client) in
    watch_staleness false 110000 d ≡ d
watchdog_spares_example =
    watchdog_spares friendly answered false 60000 110000 live_client (omega arith, tt) (omega arith)

abbrev next : ℕ
next = live_client.next_socket

-- The last run of the interval, 8100 ms after the call, with no event before it.
abbrev last_tick : Tick
last_tick = record { events = []; at = 8100 }

abbrev opened_tick : Tick
opened_tick = record { events = opened 0 ∷ []; at = 150 }

ensure_settles_example :
    let r = ensure_connected friendly 8000 0 (opened_tick ∷ last_tick ∷ []) new_client in
    r.0 ≡ some (is_connected r.1)
ensure_settles_example =
    ensure_settles friendly 8000 0 (opened_tick ∷ []) last_tick new_client (omega arith)
