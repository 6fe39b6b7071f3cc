-- ===== src/Client/Receive.antt =====
-- What `ws.onmessage` and `ws.onclose` of `web/ws_client.js` do.
use tele.Prelude.{ℕ, true, false, ◌||◌, Option, none, some, [], ◌∷◌, if◌then◌else◌, ◌===◌}
use tele.Bytes.{Text, Bytes, contains}
use tele.Client.{
  reconnect_min_ms, open_, st_established, st_rejected, st_closed, log_line, send_pong, on_server,
  on_peer, Client, emit, set_state, close_socket, schedule_reconnect,
}

-- What the session answers to the first frame of the server (finishHandshake).
pub data Handshake : Type 0 where
  accepted : ℕ → Handshake
  refused : Text → Handshake
  broken : Handshake

-- What the session makes of a later frame (parseIncoming).
pub data Parsed : Type 0 where
  from_server : ℕ → Bytes → Parsed
  from_peer : Bytes → ℕ → Bytes → Parsed
  parse_error : Parsed

-- The session of the WASM module, where it reads frames.
pub record Session : Type 0 where
  pub finish_handshake : Bytes → Handshake
  pub parse_incoming : Bytes → Parsed

pub data Message : Type 0 where
  text : Text → Message
  binary : Bytes → Message

-- The text of the fatal test, "cmd=0xff".
abbrev pub fatal_mark : Text
fatal_mark = b'c' ∷ b'm' ∷ b'd' ∷ b'=' ∷ b'0' ∷ b'x' ∷ b'f' ∷ b'f' ∷ []

abbrev pub ping : Text
ping = b'p' ∷ b'i' ∷ b'n' ∷ b'g' ∷ []

-- `ws.onmessage` while the session waits for the reply of the server.
unfoldable pub on_handshake : ℕ → Handshake → Client → Client
unfolding contains
on_handshake i (accepted version) c =
    set_state st_established (record c { reconnect_ms = reconnect_min_ms; established = true })
on_handshake i (refused reason) c =
    let c' = set_state st_rejected (emit log_line (record c { keyed = false })) in
    let stop = c.closed_manually || contains fatal_mark reason in
    close_socket i (record c' { closed_manually = stop })
on_handshake i broken c = record c { keyed = false }

unfoldable pub on_parsed : Parsed → Client → Client
on_parsed (from_server cmd body) c = emit log_line (emit (on_server cmd body) c)
on_parsed (from_peer from_id cmd body) c = emit (on_peer from_id cmd body) c
on_parsed parse_error c = emit log_line c

-- `this.ws.send('pong')`: a null `ws` throws into the empty catch.
abbrev pong : Option ℕ → Client → Client
pong none c = c
pong (some i) c = elim (c.sockets i).ready [ open_ ↦ emit (send_pong i) c | _ ↦ c ]

-- `ws.onmessage` of socket `i`, at time `now`.
unfoldable pub on_message : Session → ℕ → ℕ → Message → Client → Client
unfolding on_handshake on_parsed ◌===◌
on_message s now i (text t) c =
    let c' = record c { last_rx = now } in
    if t === ping then pong c.ws (record c' { app_ping_seen = true }) else c'
on_message s now i (binary frame) c =
    let c' = record c { last_rx = now } in
    if c.established
    then on_parsed (s.parse_incoming frame) c'
    else on_handshake i (s.finish_handshake frame) c'

-- `ws.onclose`
unfoldable pub on_close : ℕ → Client → Client
unfolding schedule_reconnect
on_close i c =
    let c' = record (set_state st_closed c) { ws = none } in
    if c.closed_manually then c' else schedule_reconnect c'
