-- ===== src/Mailbox/Envelope/Mailed.antt =====
-- A text that goes by the mailbox: mailboxStoreText and the delivery in onMailboxMessage of
-- `web/app.js`, with the session of the sender and of the recipient.
use tele.Mailbox.Session.{
  Crypto, IsCrypto, PeerKeys, WsSession, id_of, mailbox_envelope, Incoming, from_peer, error,
  parse_mailbox_envelope,
}
use tele.Mailbox.Envelope.Opens.{envelope_opens}
use tele.Prelude.{ℕ, ◌≡◌, ap, ◌∙◌, true, Option, none, some, ◌++◌, length}
use tele.Bytes.{Text, Bytes, uuid_to_bytes}
use tele.Table.{lookup}
use tele.Wire.{WebText, on_text, send_text, on_peer_message}
use tele.Wire.Codes.{cmd_text}
use tele.Wire.RoundTrip.{IsUuid, text, frame_of, meant, on_peer_message-frame_of}

module _ (w : WebText) where
  open w use {Json, encode, is_clean}

  -- The inner body that mailboxStoreText seals.
  unfoldable pub text_body : Text → Text → Bytes
  text_body msg_id txt = uuid_to_bytes msg_id ++ encode txt

  abbrev with_sender :
      Bytes → Option (tele.Wire.Incoming Json) → Option (Bytes × tele.Wire.Incoming Json)
  with_sender from_id none = none
  with_sender from_id (some call) = some (from_id, call)

  -- The delivery: a frame of a peer goes to the dispatcher of live frames, with its sender. Frames of
  -- group calls, which go to the group, and other commands give `none` here.
  unfoldable pub hand_off : Incoming → Option (Bytes × tele.Wire.Incoming Json)
  unfolding on_peer_message
  hand_off error = none
  hand_off (from_peer from_id cmd msg_id body) =
      with_sender from_id (on_peer_message w (record { cmd = cmd; body = body }))

  hand_off-text :
      (from_id : Bytes) (n : ℕ) (msg_id txt : Text)
      → IsUuid msg_id
      → is_clean txt ≡ true
      → hand_off (from_peer from_id cmd_text n (text_body msg_id txt))
        ≡ some (from_id, on_text msg_id txt)
  unfolding hand_off text_body
  hand_off-text from_id n msg_id txt u clean =
      let back : on_peer_message w
            (record { cmd = cmd_text; body = uuid_to_bytes msg_id ++ encode txt })
          ≡ some (on_text msg_id txt) =
        unfold frame_of meant send_text in
        on_peer_message-frame_of w (text msg_id txt) (u, clean) in
      ap (with_sender from_id) back

  -- A clean text that is sealed for a peer who is offline is handed, once the mailbox delivers the
  -- envelope, to the callback for texts, with the sender's id, the id of the message and the text as
  -- it was written, provided each session has the keys of the other.
  pub mailed_text_arrives :
      (k : Crypto) (s r : WsSession) (rk sk : PeerKeys) (n : ℕ) (msg_id txt : Text) (nonce : Bytes)
      → IsCrypto k
      → s.x_pub ≡ k.x_pub_of s.x_priv
      → r.x_pub ≡ k.x_pub_of r.x_priv
      → lookup (id_of r.x_pub) s.peers ≡ some rk
      → rk.x_pub ≡ r.x_pub
      → lookup (id_of s.x_pub) r.peers ≡ some sk
      → sk.x_pub ≡ s.x_pub
      → sk.ed_pub ≡ k.ed_pub_of s.ed
      → length nonce ≡ 24
      → IsUuid msg_id
      → is_clean txt ≡ true
      → (env : Bytes) × (mailbox_envelope k s
            (id_of r.x_pub)
            cmd_text
            (text_body msg_id txt)
            n
            nonce
          ≡ some env)
        × (hand_off (parse_mailbox_envelope k r env) ≡ some (id_of s.x_pub, on_text msg_id txt))
  mailed_text_arrives k s r rk sk n msg_id txt nonce laws own own_r to_r key_r to_s key_s ed_s len u
        clean =
      let (env, sealed, opened) =
        envelope_opens k s r rk sk cmd_text n (text_body msg_id txt) nonce laws own own_r to_r key_r
          to_s key_s ed_s len in
      (env, sealed, ap hand_off opened ∙ hand_off-text (id_of s.x_pub) n msg_id txt u clean)
