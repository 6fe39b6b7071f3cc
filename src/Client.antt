-- ===== src/Client.antt =====
-- The connection of `web/ws_client.js`: class WsClient. A method is a function on the state, which
-- holds the browser's sockets and timer as far as the client can observe them.
pub mod Receive
pub mod Send
pub mod Step
pub mod Invariant
pub mod Backoff
pub mod Sockets
pub mod Ids
pub mod Rejection
pub mod Upkeep
pub mod Tests
use tele.Prelude.{
  ℕ, ◌+◌, ◌*◌, ◌/◌, min, Bool, true, false, ◌&&◌, ◌||◌, Option, none, some, List, [], ◌∷◌, ◌==◌,
  if◌then◌else◌,
}
use tele.Bytes.{Bytes}
use tele.Wire.{Frame}

abbrev pub reconnect_min_ms : ℕ
reconnect_min_ms = 1000

abbrev pub reconnect_max_ms : ℕ
reconnect_max_ms = 30000

-- `readyState` of a WebSocket, in the order of its numbers 0 to 3.
pub data Ready : Type 0 where
  connecting open_ closing closed_ : Ready

-- `wired` is false once the client has taken its handlers off.
pub record Socket : Type 0 where
  pub ready : Ready
  pub wired : Bool

-- The states that `onState` reports.
pub data ConnState : Type 0 where
  st_connecting st_handshaking st_established st_rejected st_closed : ConnState
  st_reconnect_in : ℕ → ConnState

-- What the client does to the world outside, and to the callbacks of the page.
pub data Effect : Type 0 where
  on_state : ConnState → Effect
  log_line : Effect
  new_socket : ℕ → Effect
  send_handshake send_pong : ℕ → Effect
  send_peer_frame : ℕ → Bytes → Frame → ℕ → Effect
  send_server_frame : ℕ → Frame → ℕ → Effect
  on_server : ℕ → Bytes → Effect
  on_peer : Bytes → ℕ → Bytes → Effect

pub record Client : Type 0 where
  pub ws : Option ℕ
  pub sockets : ℕ → Socket
  pub next_socket : ℕ
  pub has_session : Bool
  pub established : Bool
  -- the session has derived its routing keys
  pub keyed : Bool
  -- the address book of the session
  pub has_peer : Bytes → Bool
  pub msg_id_counter : ℕ
  pub reconnect_ms : ℕ
  pub reconnect_timer : Option ℕ
  pub closed_manually : Bool
  pub last_rx : ℕ
  pub app_ping_seen : Bool
  -- the newest effect first
  pub out : List Effect

abbrev pub update {ℓ} : {A : Type ℓ} → (ℕ → A) → ℕ → A → ℕ → A
update f i a j = if i == j then a else f j

abbrev pub emit : Effect → Client → Client
emit e c = record c { out = e ∷ c.out }

-- The constructor, after `init` has made the session.
unfoldable pub new_client : Client
new_client = record {
  ws = none;
  sockets = λ _. record { ready = closed_; wired = false };
  next_socket = 0;
  has_session = true;
  established = false;
  keyed = false;
  has_peer = λ _. false;
  msg_id_counter = 1;
  reconnect_ms = reconnect_min_ms;
  reconnect_timer = none;
  closed_manually = false;
  last_rx = 0;
  app_ping_seen = false;
  out = [];
}

-- _setState
abbrev pub set_state : ConnState → Client → Client
set_state s c = emit log_line (emit (on_state s) c)

abbrev set_ready : ℕ → Ready → Client → Client
set_ready i r c = record c {
  sockets = update c.sockets i (record { ready = r; wired = (c.sockets i).wired });
}

-- `ws.close()`: an open or connecting socket begins to close; its `close` event comes later.
abbrev start_close : Ready → Ready
start_close closed_ = closed_
start_close _ = closing

abbrev close_socket : ℕ → Client → Client
close_socket i c = set_ready i (start_close (c.sockets i).ready) c

-- _open
unfoldable pub open_ws : Client → Client
open_ws c =
    let i = c.next_socket in
    let c' = record c {
      sockets = update c.sockets i (record { ready = connecting; wired = true });
      next_socket = i + 1;
      ws = some i;
    } in
    set_state st_connecting (emit (new_socket i) c')

-- `ws.onopen`; buildHandshake derives the keys and takes the established flag back.
unfoldable pub on_open : ℕ → Client → Client
on_open i c =
    let c' = set_state st_handshaking c in
    emit (send_handshake i) (record c' { established = false; keyed = true })

-- _scheduleReconnect
unfoldable pub schedule_reconnect : Client → Client
schedule_reconnect c =
    let c' = set_state (st_reconnect_in (c.reconnect_ms / 1000)) c in
    record c' { reconnect_timer = some c'.reconnect_ms }

-- The callback of that timer.
unfoldable pub on_timer : Client → Client
unfolding open_ws
on_timer c =
    let c' = record c { reconnect_timer = none } in
    if c.closed_manually
    then c'
    else open_ws (record c' { reconnect_ms = min (c.reconnect_ms * 2) reconnect_max_ms })

abbrev is_open : Ready → Bool
is_open open_ = true
is_open _ = false

abbrev is_pending : Ready → Bool
is_pending connecting = true
is_pending open_ = true
is_pending _ = false

abbrev pub ready_of : Client → Option Ready
ready_of c = elim c.ws [ none ↦ none | some i ↦ some (c.sockets i).ready ]

-- isConnected
unfoldable pub is_connected : Client → Bool
is_connected c = elim (ready_of c) [
  | none ↦ false
  | some r ↦ is_open r && c.has_session && c.established
]

-- A connect is in flight: `this.ws && this.ws.readyState <= 1`.
unfoldable pub is_in_flight : Client → Bool
is_in_flight c = elim (ready_of c) [ none ↦ false | some r ↦ is_pending r ]

-- connect; `init` makes the session if there is none.
unfoldable pub connect : Client → Client
unfolding open_ws
connect c = open_ws (record c { has_session = true; closed_manually = false })

-- close
unfoldable pub close : Client → Client
close c =
    let c' = record c { closed_manually = true } in
    elim c.ws [ none ↦ c' | some i ↦ record (close_socket i c') { ws = none } ]

-- reconnectNow
unfoldable pub reconnect_now : Client → Client
unfolding is_connected is_in_flight open_ws
reconnect_now c =
    let c' = record c { closed_manually = false } in
    if is_connected c' || is_in_flight c'
    then c'
    else open_ws
        (record c' { reconnect_timer = none; reconnect_ms = reconnect_min_ms; has_session = true })

-- The handlers come off before the close, so no event of the old socket is seen again.
abbrev discard : ℕ → Client → Client
discard i c = record c {
  sockets = update c.sockets i (record { ready = start_close (c.sockets i).ready; wired = false });
}

-- forceReconnect
unfoldable pub force_reconnect : Client → Client
unfolding open_ws
force_reconnect c =
    let c' : Client = elim c.ws [ none ↦ c | some i ↦ discard i c ] in
    open_ws (record c' {
      closed_manually = false;
      reconnect_timer = none;
      reconnect_ms = reconnect_min_ms;
      has_session = true;
    })
