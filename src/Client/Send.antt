-- ===== src/Client/Send.antt =====
-- Sending: _nextMsgId, _sendPeer and _sendServer of `web/ws_client.js`.
use tele.Prelude.{ℕ, ◌+◌, ◌%◌, ◌&&◌, Option, none, some, if◌then◌else◌}
use tele.Bytes.{Bytes}
use tele.Wire.{Frame}
use tele.Client.{send_peer_frame, send_server_frame, Client, emit, is_open}

-- _nextMsgId: `(n + 1) & 0xffff` of the counter, and its value before.
unfoldable pub next_msg_id : Client → ℕ × Client
next_msg_id c = (c.msg_id_counter, record c { msg_id_counter = (c.msg_id_counter + 1) % 65536 })

-- A send returns a Boolean, or throws where the session cannot build the frame.
pub data Sent : Type 0 where
  sent not_sent threw : Sent

abbrev pub open_socket? : Client → Option ℕ
open_socket? c = elim c.ws [
  | none ↦ none
  | some i ↦ if is_open (c.sockets i).ready then some i else none
]

-- _sendPeer. The counter moves on before the frame is built.
unfoldable pub send_peer : Bytes → Frame → Client → Sent × Client
unfolding next_msg_id
send_peer peer_id frame c = elim (open_socket? c) [
  | none ↦ (not_sent, c)
  | some i ↦
      let (msg_id, c') = next_msg_id c in
      if c.keyed && c.has_peer peer_id
      then (sent, emit (send_peer_frame i peer_id frame msg_id) c')
      else (threw, c')
]

-- _sendServer
unfoldable pub send_server : Frame → Client → Sent × Client
unfolding next_msg_id
send_server frame c = elim (open_socket? c) [
  | none ↦ (not_sent, c)
  | some i ↦
      let (msg_id, c') = next_msg_id c in
      if c.keyed then (sent, emit (send_server_frame i frame msg_id) c') else (threw, c')
]
