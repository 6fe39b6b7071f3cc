-- ===== src/Mailbox/Envelope.antt =====
-- The envelopes of the mailbox in `web/ws_client.js`: buildMailboxEnvelope, rebuildMailboxEnvelope and
-- mailboxSend. A call of the session that throws gives `none`.
pub mod Opens
pub mod Matches
pub mod Mailed
pub mod Tests
use tele.Prelude.{ℕ, Option, none, some, ◌++◌}
use tele.Bytes.{Bytes}
use tele.Client.{Client}
use tele.Client.Send.{next_msg_id, Sent, send_peer}
use tele.Mailbox.Session.{Crypto, WsSession, mailbox_envelope}

-- buildMailboxEnvelope, with the nonce that the session draws
unfoldable pub build_mailbox_envelope :
    Crypto → WsSession → Bytes → ℕ → Bytes → Bytes → Client → Option (Bytes × Bytes) × Client
unfolding next_msg_id mailbox_envelope
build_mailbox_envelope k s peer_id cmd body nonce c =
    let (msg_id, c') = next_msg_id c in
    let built : Option (Bytes × Bytes) = elim (mailbox_envelope k s peer_id cmd body msg_id nonce) [
      | none ↦ none
      | some env ↦ some (env, nonce)
    ] in
    (built, c')

-- rebuildMailboxEnvelope
unfoldable pub rebuild_mailbox_envelope :
    Crypto → WsSession → Bytes → ℕ → Bytes → Bytes → Client → Option Bytes × Client
unfolding next_msg_id mailbox_envelope
rebuild_mailbox_envelope k s peer_id cmd body nonce c =
    let (msg_id, c') = next_msg_id c in (mailbox_envelope k s peer_id cmd body msg_id nonce, c')

-- mailboxSend
unfoldable pub mailbox_send : Bytes → ℕ → Bytes → Bytes → Client → Sent × Client
unfolding send_peer
mailbox_send mailbox_peer_id op recipient_x_pub env c =
    send_peer mailbox_peer_id (record { cmd = op; body = recipient_x_pub ++ env }) c
